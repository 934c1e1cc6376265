-- ===== src/HeaderHasher/Rewrite.antt =====
-- One number of a marshalled header, written again in the buffer.
use focal_point.Prelude.{
  ℕ, ◌+◌, ◌-◌, ◌≤◌, ◌≡◌, refl, sym, ap, ◌∙◌, ◌++◌, Bytes, length, length-append, arith, inl, inr,
  subst, Bool, true, false, ◌||◌, if◌then◌else◌,
}
use focal_point.HeaderHasher.{Buffer, put, Field, Shift, Rewritten, moved, rewrite_field}
use focal_point.HeaderHasher.Cells.{Seen, put-Seen, put-keeps, Seen-append, Seen-parts}

-- From an index on, what the one buffer has the other has too.
abbrev pub Kept : ℕ → Buffer → Buffer → Type 0
Kept n b b' = (at : ℕ) (xs : Bytes) → n ≤ at → Seen at xs b → Seen at xs b'

-- What comes of a number: `front`, the number and the text after it stand at the start, the rest is
-- kept, and the shift is the difference of the places where this ends.
pub record IsRewritten (b0 : Buffer) (front old value after : Bytes) (at : ℕ) (r : Rewritten)
    : Type 0 where
  pub seen : Seen 0 (front ++ (value ++ after)) r.cells
  pub kept : Kept (length (front ++ (value ++ after))) b0 r.cells
  pub offset : r.field.offset ≡ length front
  pub len : r.field.len ≡ length value
  pub shifted : length front + length value + r.shift.taken ≡ at + length old + r.shift.added

module _ (b0 b : Buffer) (front old value after : Bytes) (f : Field) (s : Shift)
    (front_seen : Seen 0 front b) (kept : Kept (length front) b0 b)
    (old_seen : Seen f.offset (old ++ after) b0) (len : f.len ≡ length old)
    (shifted : length front + s.taken ≡ f.offset + s.added) where
  whole :
      (cells : Buffer)
      → Seen 0 front cells
      → Seen (length front) value cells
      → Seen (length front + length value) after cells
      → Seen 0 (front ++ (value ++ after)) cells
  whole cells h k l =
      Seen-append 0 (length front) front (value ++ after) cells (omega arith) h
        (Seen-append (length front) (length front + length value) value after cells refl k l)

  end : length (front ++ (value ++ after)) ≡ length front + length value + length after
  end = omega (arith, length-append front (value ++ after), length-append value after)

  untouched :
      s.added ≡ s.taken
      → value ≡ old
      → IsRewritten b0 front old value after f.offset (record { field = f; shift = s; cells = b })
  untouched same e =
      let at : f.offset ≡ length front = omega arith in
      let (v, t) = Seen-parts (length front) value after b (
        kept (length front) (value ++ after) (omega arith) (
          subst (λ (o : Bytes). Seen (length front) (o ++ after) b0) (sym e)
            (subst (λ (n : ℕ). Seen n (old ++ after) b0) at old_seen))) in
      record {
        seen = whole b front_seen v t;
        kept = λ p xs h k. kept p xs (omega (arith, end)) k;
        offset = at;
        len = len ∙ ap length (sym e);
        shifted = omega (arith, ap length e);
      }

  abbrev wrote : Buffer
  wrote = put (length front) value b

  wrote-Seen : Seen 0 front wrote
  wrote-Seen = put-keeps (length front) 0 value front b (inl (omega arith)) front_seen

  wrote-Kept : Kept (length front + length value) b0 wrote
  wrote-Kept p xs h k =
      put-keeps (length front) p value xs b (inr (omega arith)) (kept p xs (omega arith) k)

  abbrev result : Buffer → Rewritten
  result cells = record {
    field = record { offset = length front; len = length value };
    shift = record { added = s.added + length value; taken = s.taken + f.len };
    cells = cells;
  }

  -- The number ends where it ended before.
  in_place :
      s.added + length value ≡ s.taken + f.len
      → IsRewritten b0 front old value after f.offset (result wrote)
  in_place same =
      let at : f.offset + length old ≡ length front + length value = omega arith in
      let (_, t) = Seen-parts f.offset old after b0 old_seen in
      record {
        seen = whole wrote wrote-Seen (put-Seen (length front) value b) (
            wrote-Kept (length front + length value) after (omega arith)
              (subst (λ (n : ℕ). Seen n after b0) at t));
        kept = λ p xs h k. wrote-Kept p xs (omega (arith, end)) k;
        offset = refl;
        len = refl;
        shifted = omega arith;
      }

  displaced :
      IsRewritten b0 front old value after f.offset
        (result (put (length front + length value) after wrote))
  displaced =
      let next : ℕ = length front + length value in
      record {
        seen =
            whole (put next after wrote)
              (put-keeps next 0 after front wrote (inl (omega arith)) wrote-Seen)
              (put-keeps next (length front) after value wrote (inl (omega arith))
                (put-Seen (length front) value b))
              (put-Seen next after wrote);
        kept = λ p xs h k.
            put-keeps next p after xs wrote (inr (omega (arith, end)))
              (wrote-Kept p xs (omega (arith, end)) k);
        offset = refl;
        len = refl;
        shifted = omega arith;
      }

  by_tests :
      (again ends_elsewhere : Bool) (at : ℕ)
      → at ≡ length front
      → (again ≡ false → (s.added ≡ s.taken) × (value ≡ old))
      → (ends_elsewhere ≡ false → s.added + length value ≡ s.taken + f.len)
      → IsRewritten b0 front old value after f.offset (
          if again
          then record {
            field = record { offset = at; len = length value };
            shift = record { added = s.added + length value; taken = s.taken + f.len };
            cells =
                if ends_elsewhere
                then put (at + length value) after (put at value b)
                else put at value b;
          }
          else record { field = f; shift = s; cells = b })
  by_tests false ends at e skip stay = untouched (skip refl).0 (skip refl).1
  by_tests true false at e skip stay = rw e (in_place (stay refl))
  by_tests true true at e skip stay = rw e displaced

  pub rewrite_field-IsRewritten :
      (changed : Bool)
      → (changed ≡ false → value ≡ old)
      → IsRewritten b0 front old value after f.offset (rewrite_field changed value after f s b)
  unfolding rewrite_field
  rewrite_field-IsRewritten changed unchanged =
      by_tests (moved s || changed)
        (moved (record { added = s.added + length value; taken = s.taken + f.len }))
        (f.offset + s.added - s.taken) (omega arith) (ground (arith, unchanged)) (ground arith)
