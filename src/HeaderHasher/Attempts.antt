-- ===== src/HeaderHasher/Attempts.antt =====
-- The hashes that a header hasher gives a renderer, against hashing every header anew.
use mathlib.Core.List.{append_assoc}
use focal_point.Prelude.{
  ℕ, ◌+◌, ◌^◌, ◌≤◌, ◌≡◌, refl, sym, ap, ◌∙◌, List, [], ◌∷◌, ◌++◌, Bytes, pos, ◌≤ℤ◌, ◌<ℤ◌, length,
  length-append, arith, map, Bool, true, inl, leb, if◌then◌else◌, Result, ok, panic, ◌>>=◌, All,
  subst,
}
use focal_point.Count.{CountHeader}
use focal_point.Ledger.Keys.{id_bytes}
use focal_point.CountStorage.Disk.{hex}
use focal_point.HeaderHasher.{
  CountHeaderHasher, Buffer, put, slice, head_text, work_text, height_text, hdr_time, hdr_end,
  append_int, emit, init_buffer, update_buffer, update, new_count_header_hasher, max_buf_len,
  hdr_previous, hdr_hash_list_root, hdr_target, hdr_point_work, hdr_nonce, hdr_height,
  hdr_consideration_count,
}
use focal_point.HeaderHasher.Digits.{length-append_int}
use focal_point.HeaderHasher.Cells.{Seen, put-Seen, put-keeps, Seen-append, Seen-slice}
use focal_point.HeaderHasher.Update.{
  Attempt, attempted, to_time, to_nonce, to_count, header_text, IsLaidOut, length-id_text,
  length-append_3, update_buffer-IsLaidOut,
}

-- A text is written up to an index.
abbrev Written : Bytes → ℕ × Buffer → Type 0
Written xs w = Seen 0 xs w.1 × (w.0 ≡ length xs)

emit-Written :
    (done xs : Bytes) (w : ℕ × Buffer) → Written done w → Written (done ++ xs) (emit xs w)
unfolding emit
emit-Written done xs (at, b) (seen, end) = (
  Seen-append 0 at done xs (put at xs b) (omega (arith, end))
      (put-keeps at 0 xs done b (inl (omega (arith, end))) seen) (put-Seen at xs b),
  omega (arith, end, length-append done xs),
)

emit-emit :
    (done xs ys : Bytes) (w : ℕ × Buffer)
    → Written done w
    → Written (done ++ (xs ++ ys)) (emit ys (emit xs w))
emit-emit done xs ys w h =
    subst (λ (zs : Bytes). Written zs (emit ys (emit xs w))) (append_assoc done xs ys)
      (emit-Written (done ++ xs) ys (emit xs w) (emit-Written done xs w h))

init_buffer-IsLaidOut : (m : CountHeader) (h : CountHeaderHasher) → IsLaidOut m (init_buffer m h)
unfolding init_buffer emit Seen
init_buffer-IsLaidOut m h =
    let none : Written [] (0, h.buffer) = (tt, refl) in
    let head = emit-Written [] (head_text m) (0, h.buffer) none in
    let time = emit-emit (head_text m) (hex (id_bytes m.hash_list_root)) hdr_time _ head in
    let nonce = emit-emit (to_time m) (append_int m.time) (work_text m) _ time in
    let count = emit-emit (to_nonce m) (append_int m.nonce) (height_text m) _ nonce in
    let end = emit-emit (to_count m) (append_int m.consideration_count) hdr_end _ count in
    record {
      seen = end.0;
      root = refl;
      time = refl;
      nonce = refl;
      count = refl;
      root_at = head.1;
      time_at = time.1;
      time_len = refl;
      nonce_at = nonce.1;
      nonce_len = refl;
      count_at = count.1;
      count_len = refl;
      buf_len = end.1;
      initialized = refl;
    }

-- The numbers of a header that a node makes: none is negative, and they fit.
pub record IsInRange (m : CountHeader) : Type 0 where
  pub time : (pos 0 ≤ℤ m.time) × (m.time <ℤ pos (2 ^ 63))
  pub nonce : (pos 0 ≤ℤ m.nonce) × (m.nonce <ℤ pos (2 ^ 63))
  pub height : (pos 0 ≤ℤ m.height) × (m.height <ℤ pos (2 ^ 63))
  pub count : (pos 0 ≤ℤ m.consideration_count) × (m.consideration_count <ℤ pos (2 ^ 31))

length-head_text :
    (m : CountHeader) → length (head_text m) ≡ length hdr_previous + 64 + length hdr_hash_list_root
unfolding head_text
length-head_text m =
    length-append_3 hdr_previous (hex (id_bytes m.previous)) hdr_hash_list_root
    ∙ ap (λ (n : ℕ). length hdr_previous + n + length hdr_hash_list_root)
        (length-id_text m.previous)

length-work_text :
    (m : CountHeader)
    → length (work_text m)
      ≡ length hdr_target + 64 + (length hdr_point_work + 64 + length hdr_nonce)
unfolding work_text
length-work_text m =
    let rest : Bytes = hdr_point_work ++ (hex (id_bytes m.point_work) ++ hdr_nonce) in
    length-append_3 hdr_target (hex (id_bytes m.target)) rest
    ∙ ap (λ (n : ℕ). length hdr_target + n + length rest) (length-id_text m.target)
    ∙ ap (λ (n : ℕ). length hdr_target + 64 + n)
        (length-append_3 hdr_point_work (hex (id_bytes m.point_work)) hdr_nonce
          ∙ ap (λ (n : ℕ). length hdr_point_work + n + length hdr_nonce)
              (length-id_text m.point_work))

length-height_text :
    (m : CountHeader)
    → IsInRange m
    → length (height_text m) ≤ length hdr_height + 19 + length hdr_consideration_count
unfolding height_text
length-height_text m is = omega (
  arith,
  length-append_3 hdr_height (append_int m.height) hdr_consideration_count,
  length-append_int 18 m.height is.height.0 (omega (arith, is.height.1)),
)

length-header_text : (m : CountHeader) → IsInRange m → length (header_text m) ≤ max_buf_len
unfolding max_buf_len
length-header_text m is = omega (
  arith,
  length-append_3 (to_count m) (append_int m.consideration_count) hdr_end,
  length-append_3 (to_nonce m) (append_int m.nonce) (height_text m),
  length-append_3 (to_time m) (append_int m.time) (work_text m),
  length-append_3 (head_text m) (hex (id_bytes m.hash_list_root)) hdr_time,
  length-id_text m.hash_list_root,
  length-head_text m,
  length-work_text m,
  length-height_text m is,
  length-append_int 18 m.time is.time.0 (omega (arith, is.time.1)),
  length-append_int 18 m.nonce is.nonce.0 (omega (arith, is.nonce.1)),
  length-append_int 9 m.consideration_count is.count.0 (omega (arith, is.count.1)),
)

-- The hashes that a hasher gives for a header and one attempt after another.
unfoldable pub update_all :
    (Bytes → ℕ) → CountHeader → List Attempt → CountHeaderHasher → Result (List ℕ)
unfolding update
update_all sha3 m [] h = ok []
update_all sha3 m (a ∷ rest) h =
    let (r, h') = update sha3 (attempted m a) h in
    let hashes = update_all sha3 m rest h' in do (hash, _) ← r; after ← hashes; ok (hash ∷ after)

module _ (sha3 : Bytes → ℕ) where
  abbrev outcome : CountHeaderHasher → Result (ℕ × ℕ) × CountHeaderHasher
  outcome h =
      if leb h.buf_len max_buf_len
      then (ok (sha3 (slice 0 h.buf_len h.buffer), 1), h)
      else (panic, h)

  hashed :
      (m : CountHeader) (h : CountHeaderHasher)
      → IsInRange m
      → IsLaidOut m h
      → outcome h ≡ (ok (sha3 (header_text m), 1), h)
  hashed m h range is =
      let text : slice 0 h.buf_len h.buffer ≡ header_text m =
        rw is.buf_len (Seen-slice 0 (header_text m) h.buffer is.seen) in
      let fits : h.buf_len ≤ max_buf_len =
        subst (λ (n : ℕ). n ≤ max_buf_len) (sym is.buf_len) (length-header_text m range) in
      let yes : leb h.buf_len max_buf_len ≡ true = ground (arith, fits) in rw yes (rw text refl)

  after_one :
      (m : CountHeader) (a : Attempt) (rest : List Attempt) (h h' : CountHeaderHasher)
      → update sha3 (attempted m a) h ≡ (ok (sha3 (header_text (attempted m a)), 1), h')
      → update_all sha3 m rest h' ≡ ok (map (λ a. sha3 (header_text (attempted m a))) rest)
      → update_all sha3 m (a ∷ rest) h
        ≡ ok (map (λ a. sha3 (header_text (attempted m a))) (a ∷ rest))
  unfolding update_all
  after_one m a rest h h' e f = rw e (rw f refl)

  later :
      (m : CountHeader) (before : Attempt) (attempts : List Attempt) (h : CountHeaderHasher)
      → All (λ a. IsInRange (attempted m a)) attempts
      → IsLaidOut (attempted m before) h
      → update_all sha3 m attempts h ≡ ok (map (λ a. sha3 (header_text (attempted m a))) attempts)
  unfolding update_all update
  later m before [] h ranges is = refl
  later m before (a ∷ rest) h (range, ranges) is =
      let is' = update_buffer-IsLaidOut (attempted m before) a h is in
      let h' = update_buffer (attempted m a) h in
      let chosen : Bool → CountHeaderHasher =
        λ known. if known then h' else init_buffer (attempted m a) h in
      after_one m a rest h h'
        (ap (λ (known : Bool). outcome (chosen known)) is.initialized
          ∙ hashed (attempted m a) h' range is')
        (later m a rest h' ranges is')

  -- A hasher that is new gives, for a header and one attempt after another, the hash of each
  -- marshalled header: what `Update` overwrites and moves in its buffer is what marshalling anew
  -- would write, and the buffer is long enough. The attempts may change the root, the time, the nonce
  -- and the number of considerations; no number is negative, and they fit an int64 or an int32.
  pub update_all-marshalled :
      (m : CountHeader) (attempts : List Attempt)
      → All (λ a. IsInRange (attempted m a)) attempts
      → update_all sha3 m attempts new_count_header_hasher
        ≡ ok (map (λ a. sha3 (header_text (attempted m a))) attempts)
  unfolding update_all update new_count_header_hasher
  update_all-marshalled m [] ranges = refl
  update_all-marshalled m (a ∷ rest) (range, ranges) =
      let h = init_buffer (attempted m a) new_count_header_hasher in
      let is = init_buffer-IsLaidOut (attempted m a) new_count_header_hasher in
      after_one m a rest new_count_header_hasher h (hashed (attempted m a) h range is)
        (later m a rest h ranges is)
