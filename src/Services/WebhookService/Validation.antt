-- ===== src/Services/WebhookService/Validation.antt =====
-- What the validation of a webhook's fields accepts.
use hzelmaim.Prelude.{
  ℕ, ◌≤◌, ◌<◌, ◌≡◌, ◌≢◌, ◌↔◌, ◌⊎◌, refl, Bool, true, false, not, [], ◌∷◌, length, any, all, All,
  arith, ltb,
}
use hzelmaim.Prelude.Bytes.{Bytes, starts_with, strip_prefix}
use hzelmaim.Prelude.Text.{codes, is_empty}
use hzelmaim.Api.{Result, ok, err}
use hzelmaim.Services.WebhookService.{
  validate_branch, validate_working_dir, is_branch_byte, reject_if, and_then, is_control, is_quote,
}

-- A letter, a digit, or one of `.`, `_`, `/` and `-`.
abbrev pub IsBranchByte : ℕ → Type 0
IsBranchByte b =
    (((48 ≤ b) × (b ≤ 57)) ⊎ (((65 ≤ b) × (b ≤ 90)) ⊎ ((97 ≤ b) × (b ≤ 122))))
    ⊎ ((b ≡ 46) ⊎ ((b ≡ 95) ⊎ ((b ≡ 47) ⊎ (b ≡ 45))))

pub record IsBranch (s : Bytes) : Type 0 where
  pub not_empty : 0 < length s
  pub short : length s ≤ 255
  pub bytes : All IsBranchByte s

is_branch_byte-IsBranchByte : (b : ℕ) → is_branch_byte b ≡ true → IsBranchByte b
is_branch_byte-IsBranchByte b h = ground arith

IsBranchByte-is_branch_byte : (b : ℕ) → IsBranchByte b → is_branch_byte b ≡ true
IsBranchByte-is_branch_byte b h = ground arith

-- A byte of a branch name is no quote and no control character.
branch_byte_visible : (b : ℕ) → IsBranchByte b → is_control b ≡ false
branch_byte_visible b h = ground arith

pub reject_if-passed :
    (b : Bool) (rest : Result (Unit {0})) → reject_if b rest ≡ ok tt → (b ≡ false) × (rest ≡ ok tt)
reject_if-passed true rest h = absurd (cc)
reject_if-passed false rest h = (refl, h)

pub and_then-passed :
    (r rest : Result (Unit {0})) → and_then r rest ≡ ok tt → (r ≡ ok tt) × (rest ≡ ok tt)
and_then-passed (ok u) rest h = (refl, h)
and_then-passed (err e) rest h = absurd (cc)

all-All :
    {P : ℕ → Type 0} (p : ℕ → Bool) (f : (b : ℕ) → p b ≡ true → P b) (s : Bytes)
    → not (all p s) ≡ false
    → All P s
all-All p f [] h = tt
all-All p f (b ∷ s) h = (f b (ground arith), all-All p f s (ground arith))

all_of_All :
    {P : ℕ → Type 0} (p : ℕ → Bool) (f : (b : ℕ) → P b → p b ≡ true) (s : Bytes)
    → All P s
    → all p s ≡ true
all_of_All p f [] h = refl
all_of_All p f (b ∷ s) h = rw (f b h.0, all_of_All p f s h.1) refl

any_of_none :
    {P : ℕ → Type 0} (p : ℕ → Bool) (f : (b : ℕ) → P b → p b ≡ false) (s : Bytes)
    → All P s
    → any p s ≡ false
any_of_none p f [] h = refl
any_of_none p f (b ∷ s) h = rw (f b h.0, any_of_none p f s h.1) refl

none_of_any :
    {P : ℕ → Type 0} (p : ℕ → Bool) (f : (b : ℕ) → p b ≡ false → P b) (s : Bytes)
    → any p s ≡ false
    → All P s
none_of_any p f [] h = tt
none_of_any p f (b ∷ s) h = (f b (ground arith), none_of_any p f s (ground arith))

some_byte : (s : Bytes) → is_empty s ≡ false → 0 < length s
some_byte [] h = absurd (cc)
some_byte (b ∷ s) h = omega arith

pub validate_branch-IsBranch : (s : Bytes) → validate_branch s ≡ ok tt → IsBranch s
unfolding validate_branch
validate_branch-IsBranch s h =
    let (a, h1) = reject_if-passed (is_empty s) _ h in
    let (b, h2) = reject_if-passed (ltb 255 (length s)) _ h1 in
    let (c, h3) = reject_if-passed (any is_control s) _ h2 in
    let (d, h4) = reject_if-passed (not (all is_branch_byte s)) _ h3 in
    record {
      not_empty = some_byte s a;
      short = ground arith;
      bytes = all-All is_branch_byte is_branch_byte-IsBranchByte s d;
    }

nonempty : (s : Bytes) → 0 < length s → is_empty s ≡ false
nonempty [] h = absurd (omega arith)
nonempty (b ∷ s) h = refl

not_over : (n m : ℕ) → m ≤ n → ltb n m ≡ false
not_over n m h = ground arith

IsBranch-validate_branch : (s : Bytes) → IsBranch s → validate_branch s ≡ ok tt
unfolding validate_branch
IsBranch-validate_branch s h =
    rw
      (
        nonempty s h.not_empty,
        not_over 255 (length s) h.short,
        any_of_none is_control branch_byte_visible s h.bytes,
        all_of_All is_branch_byte IsBranchByte-is_branch_byte s h.bytes,
      )
      refl

-- `validate_branch` accepts a text exactly when it has 1 to 255 bytes, each a letter, a digit or
-- one of `.`, `_`, `/` and `-`.
pub validate_branch_iff : (s : Bytes) → (validate_branch s ≡ ok tt) ↔ IsBranch s
validate_branch_iff s = (validate_branch-IsBranch s, IsBranch-validate_branch s)

-- Absolute, and with neither a single quote nor a null byte.
pub record IsWorkingDir (s : Bytes) : Type 0 where
  pub short : length s ≤ 4096
  pub unquoted : All (λ b. (b ≢ 0) × (b ≢ 39)) s
  pub rest : Bytes
  pub absolute : s ≡ 47 ∷ rest

unquoted_byte : (b : ℕ) → is_quote b ≡ false → (b ≢ 0) × (b ≢ 39)
unquoted_byte b h = (λ e. ground arith, λ e. ground arith)

quote_free : (b : ℕ) → (b ≢ 0) × (b ≢ 39) → is_quote b ≡ false
quote_free b h = ground arith

absolute_path :
    (s : Bytes) → not (starts_with (codes "/") s) ≡ false → (rest : Bytes) × (s ≡ 47 ∷ rest)
unfolding starts_with strip_prefix
absolute_path [] h = absurd (cc)
absolute_path (b ∷ s) h = (s, ground arith)

pub validate_working_dir-IsWorkingDir :
    (s : Bytes) → validate_working_dir s ≡ ok tt → IsWorkingDir s
unfolding validate_working_dir
validate_working_dir-IsWorkingDir s h =
    let (a, h1) = reject_if-passed (is_empty s) _ h in
    let (b, h2) = reject_if-passed (ltb 4096 (length s)) _ h1 in
    let (c, h3) = reject_if-passed (any is_quote s) _ h2 in
    let (d, h4) = reject_if-passed (not (starts_with (codes "/") s)) _ h3 in
    record {
      short = ground arith;
      unquoted = none_of_any is_quote unquoted_byte s c;
      rest = (absolute_path s d).0;
      absolute = (absolute_path s d).1;
    }
