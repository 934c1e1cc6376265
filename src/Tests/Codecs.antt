-- ===== src/Tests/Codecs.antt =====
-- Codecs of the headers and counts, in numbers one after another.
use focal_point.Prelude.{
  ℕ, zero, suc, ◌≡◌, refl, sym, ap, ◌∙◌, Option, none, some, List, [], ◌∷◌, ◌++◌, Bytes, ℤ, pos,
  negsuc, Result, ok, err, panic, storage, ◌>>=◌, length, take, drop, take-append_left,
}
use focal_point.Consideration.{Consideration}
use focal_point.Count.{Count, CountHeader}
use focal_point.CountStorage.Disk.{Codecs}
use focal_point.CountStorage.Stored.{IsCodecs}

abbrev ok_bytes : Result Bytes → Bytes
ok_bytes (ok bytes) = bytes
ok_bytes (err e) = []
ok_bytes panic = []

abbrev sign_of : ℤ → ℕ
sign_of (pos n) = 0
sign_of (negsuc n) = 1

abbrev size_of : ℤ → ℕ
size_of (pos n) = n
size_of (negsuc n) = n

abbrev signed : ℕ → ℕ → ℤ
signed zero n = pos n
signed (suc k) n = negsuc n

signed-sign_of : (i : ℤ) → signed (sign_of i) (size_of i) ≡ i
signed-sign_of (pos n) = refl
signed-sign_of (negsuc n) = refl

abbrev put_int : ℤ → Bytes → Bytes
put_int i rest = sign_of i ∷ size_of i ∷ rest

abbrev put_text : Bytes → Bytes → Bytes
put_text xs rest = length xs ∷ (xs ++ rest)

abbrev put_key : Option Bytes → Bytes → Bytes
put_key none rest = 0 ∷ rest
put_key (some key) rest = 1 ∷ put_text key rest

abbrev read_int : Bytes → Result (ℤ × Bytes)
read_int (s ∷ n ∷ rest) = ok (signed s n, rest)
read_int _ = err storage

abbrev read_text : Bytes → Result (Bytes × Bytes)
read_text (n ∷ rest) = ok (take n rest, drop n rest)
read_text _ = err storage

abbrev read_key : Bytes → Result (Option Bytes × Bytes)
read_key (zero ∷ rest) = ok (none, rest)
read_key (suc k ∷ rest) = do (key, rest) ← read_text rest; ok (some key, rest)
read_key _ = err storage

drop-append_left : (xs ys : Bytes) → drop (length xs) (xs ++ ys) ≡ ys
drop-append_left [] ys = refl
drop-append_left (x ∷ xs) ys = drop-append_left xs ys

read_int-put_int : (i : ℤ) (rest : Bytes) → read_int (put_int i rest) ≡ ok (i, rest)
read_int-put_int i rest = ap (λ (j : ℤ). ok (j, rest)) (signed-sign_of i)

read_text-put_text : (xs rest : Bytes) → read_text (put_text xs rest) ≡ ok (xs, rest)
read_text-put_text xs rest = rw (take-append_left xs rest) (rw (drop-append_left xs rest) refl)

read_key-put_key :
    (key : Option Bytes) (rest : Bytes) → read_key (put_key key rest) ≡ ok (key, rest)
read_key-put_key none rest = refl
read_key-put_key (some key) rest =
    ap (λ (r : Result (Bytes × Bytes)). r >>= λ found. ok (some found.0, found.1))
      (read_text-put_text key rest)

-- A header's numbers, and a consideration's.
abbrev put_header : CountHeader → Bytes → Bytes
put_header h rest =
    h.previous
    ∷ h.hash_list_root
    ∷ h.target
    ∷ h.point_work
    ∷ put_int h.time (put_int h.nonce (put_int h.height (put_int h.consideration_count rest)))

abbrev read_header : Bytes → Result (CountHeader × Bytes)
read_header (a ∷ b ∷ c ∷ d ∷ rest) = do
  (time, rest) ← read_int rest
  (nonce, rest) ← read_int rest
  (height, rest) ← read_int rest
  (number, rest) ← read_int rest
  ok (
    record {
      previous = a;
      hash_list_root = b;
      time = time;
      target = c;
      point_work = d;
      nonce = nonce;
      height = height;
      consideration_count = number;
    },
    rest,
  )
read_header _ = err storage

unfoldable pub put_cn : Consideration → Bytes → Bytes
put_cn cn rest = put_int cn.time (
    put_int cn.nonce (
      put_key cn.by (
        put_key cn.for (
          put_text cn.memo (
            put_int cn.matures
              (put_int cn.expires (put_int cn.series (put_text cn.signature rest))))))))

unfoldable pub read_cn : Bytes → Result (Consideration × Bytes)
read_cn bytes = do
  (time, bytes) ← read_int bytes
  (nonce, bytes) ← read_int bytes
  (by, bytes) ← read_key bytes
  (for, bytes) ← read_key bytes
  (memo, bytes) ← read_text bytes
  (matures, bytes) ← read_int bytes
  (expires, bytes) ← read_int bytes
  (series, bytes) ← read_int bytes
  (signature, bytes) ← read_text bytes
  ok (
    record {
      time = time;
      nonce = nonce;
      by = by;
      for = for;
      memo = memo;
      matures = matures;
      expires = expires;
      series = series;
      signature = signature;
    },
    bytes,
  )

read_header-put_header :
    (h : CountHeader) (rest : Bytes) → read_header (put_header h rest) ≡ ok (h, rest)
read_header-put_header h rest = rw (signed-sign_of h.time) (
    rw (signed-sign_of h.nonce)
      (rw (signed-sign_of h.height) (rw (signed-sign_of h.consideration_count) refl)))

read_cn-put_cn : (cn : Consideration) (rest : Bytes) → read_cn (put_cn cn rest) ≡ ok (cn, rest)
unfolding read_cn put_cn
read_cn-put_cn cn rest =
    let end : Bytes = put_text cn.signature rest in
    let heights : Bytes = put_int cn.matures (put_int cn.expires (put_int cn.series end)) in
    let memo : Bytes = put_text cn.memo heights in
    rw (signed-sign_of cn.time) (
      rw (signed-sign_of cn.nonce) (
        rw (read_key-put_key cn.by (put_key cn.for memo)) (
          rw (read_key-put_key cn.for memo) (
            rw (take-append_left cn.memo heights) (
              rw (drop-append_left cn.memo heights) (
                rw (signed-sign_of cn.matures) (
                  rw (signed-sign_of cn.expires) (
                    rw (signed-sign_of cn.series) (
                      rw (take-append_left cn.signature rest)
                        (rw (drop-append_left cn.signature rest) refl))))))))))

abbrev put_cns : List Consideration → Bytes → Bytes
put_cns [] rest = rest
put_cns (cn ∷ cns) rest = put_cn cn (put_cns cns rest)

abbrev read_cns : ℕ → Bytes → Result (List Consideration × Bytes)
read_cns zero bytes = ok ([], bytes)
read_cns (suc n) bytes = do
  (cn, bytes) ← read_cn bytes
  (cns, bytes) ← read_cns n bytes
  ok (cn ∷ cns, bytes)

read_cns-put_cns :
    (cns : List Consideration) (rest : Bytes)
    → read_cns (length cns) (put_cns cns rest) ≡ ok (cns, rest)
read_cns-put_cns [] rest = refl
read_cns-put_cns (cn ∷ cns) rest =
    rw (read_cn-put_cn cn (put_cns cns rest)) (rw (read_cns-put_cns cns rest) refl)

abbrev pub encode : CountHeader → Bytes
encode h = put_header h []

abbrev decode : Bytes → Result CountHeader
decode bytes = do (h, rest) ← read_header bytes; ok h

abbrev encode_count : Count → Bytes
encode_count c = put_header c.header (length c.considerations ∷ put_cns c.considerations [])

abbrev decode_list : Bytes → Result (List Consideration × Bytes)
decode_list (n ∷ bytes) = read_cns n bytes
decode_list _ = err storage

abbrev whole : CountHeader → List Consideration → Result Count
whole h cns = ok (record { header = h; considerations = cns; hasher = [] })

abbrev counted : Result (CountHeader × Bytes) → Result Count
counted r = do (h, bytes) ← r; (cns, bytes) ← decode_list bytes; whole h cns

abbrev decode_count : Bytes → Result Count
decode_count bytes = counted (read_header bytes)

abbrev pub toy_codecs : Codecs
toy_codecs = record {
  encode_count = λ c. ok (encode_count c);
  decode_count = decode_count;
  pick_consideration = λ bytes index. err storage;
  pick_header = decode;
  encode_header = λ h. ok (encode h);
  decode_header = decode;
  compress = λ bytes. ok (0 ∷ bytes);
  uncompress = λ bytes. elim bytes [ [] ↦ err storage | b ∷ rest ↦ ok rest ];
}

decode-encode : (h : CountHeader) → decode (encode h) ≡ ok h
decode-encode h =
    ap (λ (r : Result (CountHeader × Bytes)). r >>= λ found. ok found.0)
      (read_header-put_header h [])

decode_count-encode_count :
    (c : Count) → decode_count (encode_count c) ≡ ok (record c { hasher = [] })
decode_count-encode_count c =
    let cns : Bytes = length c.considerations ∷ put_cns c.considerations [] in
    ap counted (read_header-put_header c.header cns)
    ∙ ap (λ (r : Result (List Consideration × Bytes)). r >>= λ found. whole c.header found.0)
        (read_cns-put_cns c.considerations [])

pub toy_codecs-IsCodecs : IsCodecs toy_codecs
toy_codecs-IsCodecs = record {
  decode-encode_count =
      λ c bytes plain e. ap decode_count (sym (ap ok_bytes e)) ∙ decode_count-encode_count c;
  decode-encode_header = λ h bytes e. ap decode (sym (ap ok_bytes e)) ∙ decode-encode h;
  uncompress-compress = λ bytes small e. ap toy_codecs.uncompress (sym (ap ok_bytes e));
}
