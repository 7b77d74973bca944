-- ===== src/Prelude/Outcome.antt =====
-- Outcomes of fallible code. `err` is a returned `Err`; `panic` is a Rust panic (an index or a
-- slice out of range, `unimplemented!`); `stuck` is no Rust outcome: a loop of the model ran out
-- of fuel. Each message that the code formats is named; its text is left out.
use mathlib.Core.Path.{◌≡◌, refl}
use mathlib.Core.Logic.{◌≢◌, ◌⊎◌, inl, inr}
use mathlib.Core.Bool.{Bool, true, false}
use mathlib.Core.Option.{some}
use goatns.Prelude.Tests.{if◌then◌else◌}

pub data Message : Type 0 where
  zero_length_buffer label_too_long remaining_too_short qname_too_long not_utf8 : Message
  packet_too_short no_qclass bad_header bad_opcode : Message
  long_label_in_name name_too_long bad_ipv6 bad_mx bad_number bad_caa bad_caa_tag bad_uri : Message
  bad_loc invalid_type shutting_down bad_base64 : Message

pub data Error : Type 0 where
  -- variants of `GoatNsError`
  invalid_name byte_packing utf8_error sqlx_error empty_file file_error send_error rfc8482 : Error
  generic : Message → Error
  -- an `Err(String)`
  text : Message → Error

pub data Result {ℓ} (A : Type ℓ) : Type ℓ where
  ok : A → Result A
  err : Error → Result A
  panic stuck : Result A

infixl 5 ◌>>=◌
abbrev pub ◌>>=◌ {ℓ κ} : {A : Type ℓ} {B : Type κ} → Result A → (A → Result B) → Result B
ok x >>= f = f x
err e >>= f = err e
panic >>= f = panic
stuck >>= f = stuck

-- A successful bind had two successful parts.
pub bind-eq-ok {ℓ κ} :
    {A : Type ℓ} {B : Type κ} (first : Result A) (next : A → Result B) {b : B}
    → (first >>= next) ≡ ok b
    → (x : A) × (first ≡ ok x) × (next x ≡ ok b)
bind-eq-ok (ok x) f h = (x, refl, h)
bind-eq-ok (err e) f h = cc
bind-eq-ok panic f h = cc
bind-eq-ok stuck f h = cc

pub bind-ne-stuck {ℓ κ} :
    {A : Type ℓ} {B : Type κ} (m : Result A) (f : A → Result B)
    → m ≢ stuck
    → ((x : A) → f x ≢ stuck)
    → (m >>= f) ≢ stuck
bind-ne-stuck (ok x) f h k = k x
bind-ne-stuck (err e) f h k = λ p. cc
bind-ne-stuck panic f h k = λ p. cc
bind-ne-stuck stuck f h k = absurd (h refl)

-- A value is returned: no error, no panic.
abbrev pub Returns {ℓ} : {A : Type ℓ} → Result A → Type ℓ
Returns {A = A} r = (x : A) × (r ≡ ok x)

pub Returns-bind {ℓ κ} :
    {A : Type ℓ} {B : Type κ} (m : Result A) (f : A → Result B)
    → Returns m
    → ((x : A) → Returns (f x))
    → Returns (m >>= f)
Returns-bind (ok x) f h k = k x
Returns-bind (err e) f h k = cc (h.1)
Returns-bind panic f h k = cc (h.1)
Returns-bind stuck f h k = cc (h.1)

pub Returns-ne-panic {ℓ} : {A : Type ℓ} (r : Result A) → Returns r → r ≢ panic
Returns-ne-panic r (x, e) p = cc

pub ok-injective {ℓ} : {A : Type ℓ} {x y : A} → ◌≡◌ {A = Result A} (ok x) (ok y) → x ≡ y
ok-injective h = cc

-- What a guarded success shows of its guard.
pub if_err-eq-ok {ℓ} :
    {A : Type ℓ} (b : Bool) (e : Error) {r : Result A} {x : A}
    → (if b then err e else r) ≡ ok x
    → (b ≡ false) × (r ≡ ok x)
if_err-eq-ok true e h = cc
if_err-eq-ok false e h = (refl, h)

pub if_else_err-eq-ok {ℓ} :
    {A : Type ℓ} (b : Bool) (e : Error) {r : Result A} {x : A}
    → (if b then r else err e) ≡ ok x
    → (b ≡ true) × (r ≡ ok x)
if_else_err-eq-ok true e h = (refl, h)
if_else_err-eq-ok false e h = cc

-- A value or an error is returned: no panic.
abbrev pub Settles {ℓ} : {A : Type ℓ} → Result A → Type 0
Settles (ok x) = Unit
Settles (err e) = Unit
Settles panic = ⊥
Settles stuck = ⊥

pub Settles-bind {ℓ κ} :
    {A : Type ℓ} {B : Type κ} (m : Result A) (f : A → Result B)
    → Settles m
    → ((x : A) → m ≡ ok x → Settles (f x))
    → Settles (m >>= f)
Settles-bind (ok x) f h k = k x refl
Settles-bind (err e) f h k = tt
Settles-bind panic f h k = h
Settles-bind stuck f h k = h

pub Settles-if {ℓ} :
    {A : Type ℓ} (b : Bool) (r s : Result A) → Settles r → Settles s → Settles (if b then r else s)
Settles-if true r s h k = h
Settles-if false r s h k = k

pub Returns-Settles {ℓ} : {A : Type ℓ} (r : Result A) → Returns r → Settles r
Returns-Settles r (x, e) = rw e tt

pub some-injective {ℓ} : {A : Type ℓ} {x y : A} → some x ≡ some y → x ≡ y
some-injective e = cc

-- Which of the two branches was taken.
pub if-cases {ℓ} :
    {A : Type ℓ} (b : Bool) {x y z : A}
    → (if b then x else y) ≡ z
    → ((b ≡ true) × (x ≡ z)) ⊎ ((b ≡ false) × (y ≡ z))
if-cases true h = inl (refl, h)
if-cases false h = inr (refl, h)
