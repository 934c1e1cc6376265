-- ===== src/HeaderHasher/Update.antt =====
-- The buffer of a header hasher while a renderer changes its header.
use focal_point.Prelude.{
  ℕ, ◌+◌, ◌*◌, ◌≡◌, refl, sym, ap, ◌∙◌, [], ◌∷◌, ◌++◌, Bytes, ℤ, length, length-append, arith, inl,
  inr, subst, Bool, true, false, not, ◌==◌, eqb_ℤ, eqb_ℤ_iff, if◌then◌else◌,
}
use focal_point.Binary.{be_bytes}
use focal_point.Binary.RoundTrip.{length-be_bytes}
use focal_point.Consideration.{ConsiderationId}
use focal_point.Count.{CountHeader}
use focal_point.Ledger.Keys.{id_bytes}
use focal_point.CountStorage.Disk.{hex}
use focal_point.HeaderHasher.{
  CountHeaderHasher, Buffer, put, head_text, work_text, height_text, hdr_time, hdr_end, append_int,
  update_buffer,
}
use focal_point.HeaderHasher.Cells.{Seen, put-Seen, put-keeps, Seen-append, Seen-parts}
use focal_point.HeaderHasher.Rewrite.{Kept, rewrite_field-IsRewritten}

-- What a renderer changes in a header from one attempt to the next.
pub record Attempt : Type 0 where
  pub hash_list_root : ConsiderationId
  pub time : ℤ
  pub nonce : ℤ
  pub consideration_count : ℤ

abbrev pub attempted : CountHeader → Attempt → CountHeader
attempted header a = record header {
  hash_list_root = a.hash_list_root;
  time = a.time;
  nonce = a.nonce;
  consideration_count = a.consideration_count;
}

abbrev root_text : CountHeader → Bytes
root_text header = hex (id_bytes header.hash_list_root)

abbrev pub to_time : CountHeader → Bytes
to_time header = head_text header ++ (root_text header ++ hdr_time)

abbrev pub to_nonce : CountHeader → Bytes
to_nonce header = to_time header ++ (append_int header.time ++ work_text header)

abbrev pub to_count : CountHeader → Bytes
to_count header = to_nonce header ++ (append_int header.nonce ++ height_text header)

-- The marshalled header.
abbrev pub header_text : CountHeader → Bytes
header_text header = to_count header ++ (append_int header.consideration_count ++ hdr_end)

-- The hasher holds the marshalled header, and knows where the parts of it are that may change.
pub record IsLaidOut (header : CountHeader) (h : CountHeaderHasher) : Type 0 where
  pub seen : Seen 0 (header_text header) h.buffer
  pub root : h.previous_hash_list_root ≡ header.hash_list_root
  pub time : h.previous_time ≡ header.time
  pub nonce : h.previous_nonce ≡ header.nonce
  pub count : h.previous_consideration_count ≡ header.consideration_count
  pub root_at : h.hash_list_root_offset ≡ length (head_text header)
  pub time_at : h.time_field.offset ≡ length (to_time header)
  pub time_len : h.time_field.len ≡ length (append_int header.time)
  pub nonce_at : h.nonce_field.offset ≡ length (to_nonce header)
  pub nonce_len : h.nonce_field.len ≡ length (append_int header.nonce)
  pub count_at : h.cn_count_field.offset ≡ length (to_count header)
  pub count_len : h.cn_count_field.len ≡ length (append_int header.consideration_count)
  pub buf_len : h.buf_len ≡ length (header_text header)
  pub initialized : h.initialized ≡ true

length-hex : (bytes : Bytes) → length (hex bytes) ≡ 2 * length bytes
unfolding hex
length-hex [] = refl
length-hex (b ∷ bytes) = omega (arith, length-hex bytes)

pub length-id_text : (id : ℕ) → length (hex (id_bytes id)) ≡ 64
unfolding id_bytes
length-id_text id = omega (arith, length-hex (be_bytes 32 id), length-be_bytes 32 id)

pub length-append_3 :
    (xs ys zs : Bytes) → length (xs ++ (ys ++ zs)) ≡ length xs + length ys + length zs
length-append_3 xs ys zs = omega (arith, length-append xs (ys ++ zs), length-append ys zs)

unchanged : (a b : ℤ) → not (eqb_ℤ a b) ≡ false → append_int b ≡ append_int a
unchanged a b h = sym (ap append_int ((eqb_ℤ_iff a b).0 (ground (arith, h))))

module _ (m : CountHeader) (a : Attempt) (h : CountHeaderHasher) (is : IsLaidOut m h) where
  abbrev m' : CountHeader
  m' = attempted m a

  parts :
      Seen 0 (to_time m) h.buffer
      × Seen h.time_field.offset (append_int m.time ++ work_text m) h.buffer
      × Seen h.nonce_field.offset (append_int m.nonce ++ height_text m) h.buffer
      × Seen h.cn_count_field.offset (append_int m.consideration_count ++ hdr_end) h.buffer
  parts =
      let (c, last) =
        Seen-parts 0 (to_count m) (append_int m.consideration_count ++ hdr_end) h.buffer is.seen in
      let (n, middle) =
        Seen-parts 0 (to_nonce m) (append_int m.nonce ++ height_text m) h.buffer c in
      let (t, first) = Seen-parts 0 (to_time m) (append_int m.time ++ work_text m) h.buffer n in
      (
        t,
        subst (λ (i : ℕ). Seen i (append_int m.time ++ work_text m) h.buffer)
            (omega (arith, is.time_at)) first,
        subst (λ (i : ℕ). Seen i (append_int m.nonce ++ height_text m) h.buffer)
            (omega (arith, is.nonce_at)) middle,
        subst (λ (i : ℕ). Seen i (append_int m.consideration_count ++ hdr_end) h.buffer)
            (omega (arith, is.count_at)) last,
      )

  same_length : length (to_time m') ≡ length (to_time m)
  unfolding head_text
  same_length = omega (
    arith,
    length-append_3 (head_text m) (root_text m') hdr_time,
    length-append_3 (head_text m) (root_text m) hdr_time,
    length-id_text a.hash_list_root,
    length-id_text m.hash_list_root,
  )

  abbrev rooted : Buffer
  rooted =
      if h.previous_hash_list_root == a.hash_list_root
      then h.buffer
      else put h.hash_list_root_offset (hex (id_bytes a.hash_list_root)) h.buffer

  put_root :
      let b = put (length (head_text m)) (root_text m') h.buffer in
      Seen 0 (to_time m') b × Kept (length (to_time m')) h.buffer b
  unfolding head_text
  put_root =
      let at : ℕ = length (head_text m) in
      let (head, rest) = Seen-parts 0 (head_text m) (root_text m ++ hdr_time) h.buffer parts.0 in
      let (_, label) =
        Seen-parts at (root_text m) hdr_time h.buffer
          (subst (λ (i : ℕ). Seen i (root_text m ++ hdr_time) h.buffer) (omega arith) rest) in
      let old : length (root_text m) ≡ 64 = length-id_text m.hash_list_root in
      let new : length (root_text m') ≡ 64 = length-id_text a.hash_list_root in
      let all : length (to_time m') ≡ at + length (root_text m') + length hdr_time =
        length-append_3 (head_text m) (root_text m') hdr_time in
      let b : Buffer = put at (root_text m') h.buffer in
      (
        Seen-append 0 at (head_text m) (root_text m' ++ hdr_time) b (omega arith)
            (put-keeps at 0 (root_text m') (head_text m) h.buffer (inl (omega arith)) head)
            (Seen-append at (at + 64) (root_text m') hdr_time b (omega (arith, new))
              (put-Seen at (root_text m') h.buffer)
              (put-keeps at (at + 64) (root_text m') hdr_time h.buffer (inr (omega (arith, new)))
                (subst (λ (i : ℕ). Seen i hdr_time h.buffer) (omega (arith, old)) label))),
        λ p xs e k. put-keeps at p (root_text m') xs h.buffer (inr (omega (arith, all))) k,
      )

  either_root :
      (same : Bool) (at : ℕ)
      → at ≡ length (head_text m)
      → (same ≡ true → a.hash_list_root ≡ m.hash_list_root)
      → let b = if same then h.buffer else put at (root_text m') h.buffer in
        Seen 0 (to_time m') b × Kept (length (to_time m')) h.buffer b
  unfolding head_text
  either_root true at e root = (
    subst
        (λ (id : ConsiderationId). Seen 0 (head_text m ++ (hex (id_bytes id) ++ hdr_time)) h.buffer)
        (sym (root refl)) parts.0,
    λ p xs e k. k,
  )
  either_root false at e root = rw e put_root

  rooted-Seen : Seen 0 (to_time m') rooted × Kept (length (to_time m')) h.buffer rooted
  rooted-Seen =
      either_root (h.previous_hash_list_root == a.hash_list_root) h.hash_list_root_offset is.root_at
        (ground (arith, is.root))

  pub update_buffer-IsLaidOut : IsLaidOut m' (update_buffer m' h)
  unfolding update_buffer head_text work_text height_text
  update_buffer-IsLaidOut =
      let (_, first, middle, last) = parts in
      let (root_seen, root_kept) = rooted-Seen in
      let t =
        rewrite_field-IsRewritten h.buffer rooted (to_time m') (append_int m.time)
          (append_int a.time) (work_text m) h.time_field (record { added = 0; taken = 0 }) root_seen
          root_kept first is.time_len (omega (arith, same_length, is.time_at))
          (not (eqb_ℤ h.previous_time a.time))
          (λ e. unchanged h.previous_time a.time e ∙ ap append_int is.time) in
      let n =
        rewrite_field-IsRewritten h.buffer _ (to_nonce m') (append_int m.nonce) (append_int a.nonce)
          (height_text m) h.nonce_field _ t.seen t.kept middle is.nonce_len
          (omega (
            arith,
            t.shifted,
            is.nonce_at,
            is.time_at,
            length-append_3 (to_time m) (append_int m.time) (work_text m),
            length-append_3 (to_time m') (append_int a.time) (work_text m),
          ))
          (not (eqb_ℤ h.previous_nonce a.nonce))
          (λ e. unchanged h.previous_nonce a.nonce e ∙ ap append_int is.nonce) in
      let c =
        rewrite_field-IsRewritten h.buffer _ (to_count m') (append_int m.consideration_count)
          (append_int a.consideration_count) hdr_end h.cn_count_field _ n.seen n.kept last
          is.count_len
          (omega (
            arith,
            n.shifted,
            is.count_at,
            is.nonce_at,
            length-append_3 (to_nonce m) (append_int m.nonce) (height_text m),
            length-append_3 (to_nonce m') (append_int a.nonce) (height_text m),
          ))
          (not (eqb_ℤ h.previous_consideration_count a.consideration_count))
          (λ e.
            unchanged h.previous_consideration_count a.consideration_count e
            ∙ ap append_int is.count) in
      record {
        seen = c.seen;
        root = refl;
        time = refl;
        nonce = refl;
        count = refl;
        root_at = is.root_at;
        time_at = t.offset;
        time_len = t.len;
        nonce_at = n.offset;
        nonce_len = n.len;
        count_at = c.offset;
        count_len = c.len;
        buf_len = omega (
          arith,
          is.buf_len,
          c.shifted,
          is.count_at,
          length-append_3 (to_count m) (append_int m.consideration_count) hdr_end,
          length-append_3 (to_count m') (append_int a.consideration_count) hdr_end,
        );
        initialized = refl;
      }
