-- ===== src/Error.antt =====
-- `Error` and `Result` of crates/starweld-core/src/error.rs. A message keeps its fixed text; the
-- values that `format!` puts into it are left out, except those that the source keeps as fields.
use Prim.Native.String.{String}
use starweld.Prelude.{ℕ, ◌≡◌, refl, Bool, true, false, Option, none, some}
use starweld.Prelude.Bytes.{Bytes}

pub data Error : Type 0 where
  io : Error
  bad_signature : Bytes → Error
  no_valid_header : Error
  no_valid_region_table : Error
  missing_region : String → Error
  missing_metadata : String → Error
  invalid_structure : String → Error
  log_replay : String → Error
  dirty_log : Error
  unsupported : String → Error
  parent_not_found : String → Error
  parent_guid_mismatch : ℕ → ℕ → Error
  virt_offset_out_of_range : ℕ → Error
  unmapped_block : ℕ → Error
  integrity : String → Error

-- `panic` is a Rust panic: an index or a division by zero that the source does not test.
pub data Result {ℓ} (A : Type ℓ) : Type ℓ where
  ok : A → Result A
  err : Error → Result A
  panic : Result A

-- `Option::ok_or(e)?`
abbrev pub ok_or {ℓ} : {T : Type ℓ} → Option T → Error → Result T
ok_or none e = err e
ok_or (some x) e = ok x

infixl 5 ◌>>=◌ ◌>>◌
-- The `?` operator.
abbrev pub ◌>>=◌ {ℓ κ} : {T : Type ℓ} {U : Type κ} → Result T → (T → Result U) → Result U
panic >>= next = panic
err e >>= next = err e
ok x >>= next = next x

-- An `assert` that the language makes, such as a bounds check.
abbrev pub must : Bool → Result (Unit {0})
must false = panic
must true = ok tt

-- An early `return Err(e)` when the test fails.
abbrev pub guard : Bool → Error → Result (Unit {0})
guard false e = err e
guard true e = ok tt

abbrev pub ◌>>◌ {κ} : {U : Type κ} → Result (Unit {0}) → Result U → Result U
first >> next = first >>= λ _. next

pub >>=-eq-ok {ℓ κ} :
    {T : Type ℓ} {U : Type κ} (r : Result T) (next : T → Result U) {u : U}
    → (r >>= next) ≡ ok u
    → (x : T) × (r ≡ ok x) × (next x ≡ ok u)
>>=-eq-ok panic next h = cc
>>=-eq-ok (err e) next h = cc
>>=-eq-ok (ok x) next h = (x, refl, h)

pub guard-eq-ok : (b : Bool) (e : Error) {u : Unit {0}} → guard b e ≡ ok u → b ≡ true
guard-eq-ok false e h = cc
guard-eq-ok true e h = refl

pub ok_or-eq-ok {ℓ} :
    {T : Type ℓ} (o : Option T) (e : Error) {x : T} → ok_or o e ≡ ok x → o ≡ some x
ok_or-eq-ok none e h = cc
ok_or-eq-ok (some x) e h = cc

pub >>=_assoc {ℓ κ μ} :
    {T : Type ℓ} {U : Type κ} {V : Type μ} (r : Result T) (f : T → Result U) (g : U → Result V)
    → ((r >>= f) >>= g) ≡ (r >>= λ x. f x >>= g)
>>=_assoc panic f g = refl
>>=_assoc (err e) f g = refl
>>=_assoc (ok x) f g = refl

pub >>=_congr {ℓ κ} :
    {T : Type ℓ} {U : Type κ} (r : Result T) (f g : T → Result U)
    → ((x : T) → f x ≡ g x)
    → (r >>= f) ≡ (r >>= g)
>>=_congr panic f g h = refl
>>=_congr (err e) f g h = refl
>>=_congr (ok x) f g h = h x

-- To push what follows a chain into it.
pub >>=_into {ℓ κ μ} :
    {T : Type ℓ} {U : Type κ} {V : Type μ} (r : Result T) (f : T → Result V) (g : T → Result U)
    (out : U → Result V)
    → ((x : T) → f x ≡ (g x >>= out))
    → (r >>= f) ≡ ((r >>= g) >>= out)
>>=_into panic f g out h = refl
>>=_into (err e) f g out h = refl
>>=_into (ok x) f g out h = h x
