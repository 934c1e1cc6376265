-- ===== src/HeaderHasher.antt =====
-- stage_header_hasher.go: the marshalled header of a count that is being rendered, kept in a buffer in
-- which `Update` overwrites only what changed.
pub mod Cells
pub mod Rewrite
pub mod Digits
pub mod Update
pub mod Attempts
use focal_point.Prelude.{
  ℕ, zero, suc, ◌+◌, ◌-◌, ◌*◌, ◌/◌, ◌%◌, Bool, true, false, not, ◌||◌, [], ◌∷◌, ◌++◌, Bytes, ℤ, pos,
  negsuc, eqb_ℤ, Result, ok, panic, if◌then◌else◌, ltb, leb, ◌==◌, length,
}
use focal_point.Consideration.{ConsiderationId}
use focal_point.Count.{CountHeader}
use focal_point.Ledger.Keys.{id_bytes}
use focal_point.CountStorage.Disk.{hex}

abbrev pub hdr_previous : Bytes
hdr_previous =
    b'{' ∷ b'"' ∷ b'p' ∷ b'r' ∷ b'e' ∷ b'v' ∷ b'i' ∷ b'o' ∷ b'u' ∷ b's' ∷ b'"' ∷ b':' ∷ b'"' ∷ []

abbrev pub hdr_hash_list_root : Bytes
hdr_hash_list_root =
    b'"' ∷ b',' ∷ b'"' ∷ b'h' ∷ b'a' ∷ b's' ∷ b'h' ∷ b'_' ∷ b'l' ∷ b'i' ∷ b's' ∷ b't' ∷ b'_' ∷ b'r'
    ∷ b'o' ∷ b'o' ∷ b't' ∷ b'"' ∷ b':' ∷ b'"' ∷ []

abbrev pub hdr_time : Bytes
hdr_time = b'"' ∷ b',' ∷ b'"' ∷ b't' ∷ b'i' ∷ b'm' ∷ b'e' ∷ b'"' ∷ b':' ∷ []

abbrev pub hdr_target : Bytes
hdr_target = b',' ∷ b'"' ∷ b't' ∷ b'a' ∷ b'r' ∷ b'g' ∷ b'e' ∷ b't' ∷ b'"' ∷ b':' ∷ b'"' ∷ []

abbrev pub hdr_point_work : Bytes
hdr_point_work =
    b'"' ∷ b',' ∷ b'"' ∷ b'p' ∷ b'o' ∷ b'i' ∷ b'n' ∷ b't' ∷ b'_' ∷ b'w' ∷ b'o' ∷ b'r' ∷ b'k' ∷ b'"'
    ∷ b':' ∷ b'"' ∷ []

abbrev pub hdr_nonce : Bytes
hdr_nonce = b'"' ∷ b',' ∷ b'"' ∷ b'n' ∷ b'o' ∷ b'n' ∷ b'c' ∷ b'e' ∷ b'"' ∷ b':' ∷ []

abbrev pub hdr_height : Bytes
hdr_height = b',' ∷ b'"' ∷ b'h' ∷ b'e' ∷ b'i' ∷ b'g' ∷ b'h' ∷ b't' ∷ b'"' ∷ b':' ∷ []

abbrev pub hdr_consideration_count : Bytes
hdr_consideration_count =
    b',' ∷ b'"' ∷ b'c' ∷ b'o' ∷ b'n' ∷ b's' ∷ b'i' ∷ b'd' ∷ b'e' ∷ b'r' ∷ b'a' ∷ b't' ∷ b'i' ∷ b'o'
    ∷ b'n' ∷ b'_' ∷ b'c' ∷ b'o' ∷ b'u' ∷ b'n' ∷ b't' ∷ b'"' ∷ b':' ∷ []

abbrev pub hdr_end : Bytes
hdr_end = b'}' ∷ []

-- The capacity that `NewCountHeaderHasher` gives the buffer.
unfoldable pub max_buf_len : ℕ
max_buf_len =
    length hdr_previous
    + length hdr_hash_list_root
    + length hdr_time
    + length hdr_target
    + length hdr_point_work
    + length hdr_nonce
    + length hdr_height
    + length hdr_consideration_count
    + length hdr_end
    + 4 * 64
    + 3 * 19
    + 10

-- The bytes of a buffer at their indices. Nothing at or past the capacity is ever read: a header
-- that does not fit is a panic when the buffer is sliced.
abbrev pub Buffer : Type 0
Buffer = ℕ → ℕ

unfoldable pub put : ℕ → Bytes → Buffer → Buffer
put at [] b = b
put at (x ∷ xs) b = put (suc at) xs (λ i. if i == at then x else b i)

unfoldable pub slice : ℕ → ℕ → Buffer → Bytes
slice at zero b = []
slice at (suc n) b = b at ∷ slice (suc at) n b

-- `strconv.AppendInt` in base 10: 19 digits hold an int64.
unfoldable pub digits : ℕ → ℕ → Bytes
digits zero n = []
digits (suc fuel) n =
    if ltb n 10 then (b'0' + n) ∷ [] else digits fuel (n / 10) ++ ((b'0' + n % 10) ∷ [])

unfoldable pub append_int : ℤ → Bytes
append_int (pos n) = digits 19 n
append_int (negsuc n) = b'-' ∷ digits 19 (suc n)

-- Where a number stands in the buffer.
pub record Field : Type 0 where
  pub offset : ℕ
  pub len : ℕ

pub record CountHeaderHasher : Type 0 where
  pub previous_hash_list_root : ConsiderationId
  pub previous_time : ℤ
  pub previous_nonce : ℤ
  pub previous_consideration_count : ℤ
  pub hash_list_root_offset : ℕ
  pub time_field : Field
  pub nonce_field : Field
  pub cn_count_field : Field
  pub initialized : Bool
  pub buf_len : ℕ
  pub buffer : Buffer

unfoldable pub new_count_header_hasher : CountHeaderHasher
new_count_header_hasher =
    let nowhere : Field = record { offset = 0; len = 0 } in
    record {
      previous_hash_list_root = 0;
      previous_time = pos 0;
      previous_nonce = pos 0;
      previous_consideration_count = pos 0;
      hash_list_root_offset = 0;
      time_field = nowhere;
      nonce_field = nowhere;
      cn_count_field = nowhere;
      initialized = false;
      buf_len = 0;
      buffer = λ i. 0;
    }

-- The text before the hash list root, between the time and the nonce, and between the nonce and the
-- number of considerations.
unfoldable pub head_text : CountHeader → Bytes
head_text header = hdr_previous ++ (hex (id_bytes header.previous) ++ hdr_hash_list_root)

unfoldable pub work_text : CountHeader → Bytes
work_text header =
    hdr_target
    ++ (hex (id_bytes header.target)
        ++ (hdr_point_work ++ (hex (id_bytes header.point_work) ++ hdr_nonce)))

unfoldable pub height_text : CountHeader → Bytes
height_text header = hdr_height ++ (append_int header.height ++ hdr_consideration_count)

-- The end of what is written and the buffer, after one more text.
unfoldable pub emit : Bytes → ℕ × Buffer → ℕ × Buffer
emit xs (at, b) = (at + length xs, put at xs b)

unfoldable pub init_buffer : CountHeader → CountHeaderHasher → CountHeaderHasher
init_buffer header h =
    let root = emit (head_text header) (0, h.buffer) in
    let time = emit hdr_time (emit (hex (id_bytes header.hash_list_root)) root) in
    let nonce = emit (work_text header) (emit (append_int header.time) time) in
    let cns = emit (height_text header) (emit (append_int header.nonce) nonce) in
    let end = emit hdr_end (emit (append_int header.consideration_count) cns) in
    record {
      previous_hash_list_root = header.hash_list_root;
      previous_time = header.time;
      previous_nonce = header.nonce;
      previous_consideration_count = header.consideration_count;
      hash_list_root_offset = root.0;
      time_field = record { offset = time.0; len = length (append_int header.time) };
      nonce_field = record { offset = nonce.0; len = length (append_int header.nonce) };
      cn_count_field = record {
        offset = cns.0;
        len = length (append_int header.consideration_count);
      };
      initialized = true;
      buf_len = end.0;
      buffer = end.1;
    }

-- The `offset` of the update, an int that may be negative, as what it adds and what it takes.
pub record Shift : Type 0 where
  pub added : ℕ
  pub taken : ℕ

abbrev pub moved : Shift → Bool
moved s = not (s.added == s.taken)

pub record Rewritten : Type 0 where
  pub field : Field
  pub shift : Shift
  pub cells : Buffer

-- A number of the update: it is written again when it changed or when what is before it changed its
-- length, and the text `after` it is written again when that moves.
unfoldable pub rewrite_field : Bool → (value after : Bytes) → Field → Shift → Buffer → Rewritten
rewrite_field changed value after f s b =
    let at = f.offset + s.added - s.taken in
    let s' : Shift = record { added = s.added + length value; taken = s.taken + f.len } in
    if moved s || changed
    then record {
      field = record { offset = at; len = length value };
      shift = s';
      cells = if moved s' then put (at + length value) after (put at value b) else put at value b;
    }
    else record { field = f; shift = s; cells = b }

unfoldable pub update_buffer : CountHeader → CountHeaderHasher → CountHeaderHasher
update_buffer header h =
    let b =
      if h.previous_hash_list_root == header.hash_list_root
      then h.buffer
      else put h.hash_list_root_offset (hex (id_bytes header.hash_list_root)) h.buffer in
    let t =
      rewrite_field (not (eqb_ℤ h.previous_time header.time)) (append_int header.time)
        (work_text header) h.time_field (record { added = 0; taken = 0 }) b in
    let n =
      rewrite_field (not (eqb_ℤ h.previous_nonce header.nonce)) (append_int header.nonce)
        (height_text header) h.nonce_field t.shift t.cells in
    let c =
      rewrite_field (not (eqb_ℤ h.previous_consideration_count header.consideration_count))
        (append_int header.consideration_count) hdr_end h.cn_count_field n.shift n.cells in
    record {
      previous_hash_list_root = header.hash_list_root;
      previous_time = header.time;
      previous_nonce = header.nonce;
      previous_consideration_count = header.consideration_count;
      hash_list_root_offset = h.hash_list_root_offset;
      time_field = t.field;
      nonce_field = n.field;
      cn_count_field = c.field;
      initialized = true;
      buf_len = h.buf_len + c.shift.added - c.shift.taken;
      buffer = c.cells;
    }

-- `Update`, over SHA3-256; `hashesPerAttempt` is 1.
unfoldable pub update :
    (Bytes → ℕ) → CountHeader → CountHeaderHasher → Result (ℕ × ℕ) × CountHeaderHasher
update sha3 header h =
    let h' = if h.initialized then update_buffer header h else init_buffer header h in
    if leb h'.buf_len max_buf_len
    then (ok (sha3 (slice 0 h'.buf_len h'.buffer), 1), h')
    else (panic, h')
