-- ===== src/Prelude/Errors.antt =====
-- Go's error results and panics, and the effect of a call on the state that it mutates.
use mathlib.Core.Path.{◌≡◌, refl}
use native.Mathlib.Omega.{arith}
use mathlib.Core.Bool.{Bool, true, false}
use mathlib.Core.Logic.{◌⊎◌, inl, inr}

-- One constructor for each error message, and `storage` for what the database, the file system
-- or a codec reports.
pub data Error : Type 0 where
  storage : Error
  invalid_time negative_nonce : Error
  countpoint_matures countpoint_expires countpoint_signed : Error
  invalid_sender invalid_signature missing_recipient invalid_recipient to_self : Error
  memo_utf8 memo_length invalid_maturity invalid_expiration invalid_series : Error
  loose_countpoint queue_full already_confirmed no_tip : Error
  series_not_current immature expired signature_failed : Error
  no_imbalance descendant : Error
  time_invalid time_future no_work nonce_invalid height_invalid checkpoint : Error
  negative_count count_mismatch no_considerations no_countpoint too_many many_countpoints : Error
  duplicate root_mismatch : Error
  orphan_count height_mismatch target_mismatch work_mismatch time_early not_found : Error
  not_tip already_processed missing_height missing_countpoint : Error
  read_only : Error

-- What a call returns: a Go panic, a value or an error.
pub data Result {κ} (V : Type κ) : Type κ where
  panic : Result V
  ok : V → Result V
  err : Error → Result V

-- `if b { return e }`
abbrev pub fail_if : Bool → Error → Result (Unit {0})
fail_if false e = ok tt
fail_if true e = err e

infixl 5 ◌>>=◌ ◌>>◌
abbrev pub ◌>>=◌ {κ ℓ} : {V : Type κ} {W : Type ℓ} → Result V → (V → Result W) → Result W
panic >>= next = panic
err e >>= next = err e
ok v >>= next = next v

abbrev pub ◌>>◌ {κ} : {W : Type κ} → Result (Unit {0}) → Result W → Result W
first >> second = first >>= λ done. second

pub >>=-eq-ok {κ ℓ} :
    {V : Type κ} {W : Type ℓ} (first : Result V) (next : V → Result W) {b : W}
    → (first >>= next) ≡ ok b
    → (v : V) × (first ≡ ok v) × (next v ≡ ok b)
>>=-eq-ok panic next h = cc
>>=-eq-ok (err e) next h = cc
>>=-eq-ok (ok v) next h = (v, refl, h)

-- A method: its result, and the object as it left it. What was written before an error stays.
abbrev pub Action : Type 0 → Type 0 → Type 0
Action S A = S → Result A × S

infixl 5 ◌>>>◌
abbrev pub ◌>>>◌ : {S A B : Type 0} → Result A × S → (A → Action S B) → Result B × S
(ok a, s) >>> f = f a s
(err e, s) >>> f = (err e, s)
(panic, s) >>> f = (panic, s)

-- A result is a value, or it is not, and then a failure of it is a failure of what follows.
pub Result-cases {ℓ} :
    {A : Type ℓ} (r : Result A) → ((a : A) × (r ≡ ok a)) ⊎ ((e : Error) × (r ≡ err e)) ⊎ (r ≡ panic)
Result-cases (ok a) = inl (a, refl)
Result-cases (err e) = inr (inl (e, refl))
Result-cases panic = inr (inr refl)

pub Action-cases :
    {S A : Type 0}
    → (r : Result A × S)
    → ((a : A) × (s : S) × (r ≡ (ok a, s)))
      ⊎ ((e : Error) × (s : S) × (r ≡ (err e, s)))
      ⊎ ((s : S) × (r ≡ (panic, s)))
Action-cases (ok a, s) = inl (a, s, refl)
Action-cases (err e, s) = inr (inl (e, s, refl))
Action-cases (panic, s) = inr (inr (s, refl))

pub >>>-eq-ok :
    {S A B : Type 0} (m : Result A × S) (f : A → Action S B) {b : B} {s' : S}
    → (m >>> f) ≡ (ok b, s')
    → (a : A) × (s : S) × (m ≡ (ok a, s)) × (f a s ≡ (ok b, s'))
>>>-eq-ok (ok a, s) f h = (a, s, refl, h)
>>>-eq-ok (err e, s) f h = absurd (ground arith)
>>>-eq-ok (panic, s) f h = absurd (ground arith)
