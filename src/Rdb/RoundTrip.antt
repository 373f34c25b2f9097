-- ===== src/Rdb/RoundTrip.antt =====
-- rdb.c: the reader on what the writer wrote: numbers, byte strings and loops.
pub mod Values
pub mod Snapshot
pub mod Damaged
use native.Mathlib.Numerals.{unary_clauses}
use miniredis.Common.{
  ℕ, zero, suc, ◌+◌, ◌-◌, ◌*◌, ◌/◌, ◌%◌, ◌^◌, ◌≤◌, ◌<◌, ◌≡◌, refl, sym, ap, ◌∙◌, arith, Bytes, Bool,
  true, false, Option, none, some, List, [], ◌∷◌, ◌++◌, append_assoc, append-nil, length,
  length-append, take, drop, take-append_self, drop-append_self, ltb, if◌then◌else◌, ℤ, pos, negsuc,
  FitsLl, Bool-cases, inl, inr, bytes_eq, bytes_eq_refl,
}
use miniredis.Dict.{Entry}
use miniredis.Dict.Chain.{find, count, find-eq-none}
use miniredis.Rdb.{w_uint, w_u8, w_u32, w_u64, w_s64, w_bytes, w_all}
use miniredis.Rdb.Load.{
  Read, ◌>>=◌, return, r_need, number, r_u8, r_u32, r_u64, r_s64, to_s64, r_bytes, r_times,
}

-- The reader takes these bytes for `x`, whatever stands behind them.
unfoldable pub Reads {ℓ} : {A : Type ℓ} → Read A → Bytes → A → Type ℓ
Reads r bs x = (rest : Bytes) → r (bs ++ rest) ≡ some (x, rest)

pub Reads-return {ℓ} : {A : Type ℓ} (x : A) → Reads (return x) [] x
unfolding Reads return
Reads-return x rest = refl

pub Reads-bind {ℓ κ} :
    {A : Type ℓ} {B : Type κ} (r : Read A) (f : A → Read B) (a b : Bytes) (x : A) (y : B)
    → Reads r a x
    → Reads (f x) b y
    → Reads (r >>= f) (a ++ b) y
unfolding Reads ◌>>=◌
Reads-bind r f a b x y first second rest =
    rw (append_assoc a b rest, first (b ++ rest)) (second rest)

-- The last step of a reader.
pub Reads-map {ℓ κ} :
    {A : Type ℓ} {B : Type κ} (r : Read A) (f : A → B) (a : Bytes) (x : A)
    → Reads r a x
    → Reads (r >>= (λ y. return (f y))) a (f x)
unfolding Reads ◌>>=◌ return
Reads-map r f a x first rest = rw (first rest) refl

pub Reads-to {ℓ} :
    {A : Type ℓ} (r : Read A) (a : Bytes) (x y : A) → Reads r a x → x ≡ y → Reads r a y
Reads-to r a x y reads e = rw (sym e) reads

r_need-Reads : (s : Bytes) → Reads (r_need (length s)) s s
unfolding Reads r_need
r_need-Reads s rest =
    let room : ltb (length (s ++ rest)) (length s) ≡ false = ground (arith, length-append s rest) in
    rw (room, take-append_self s rest, drop-append_self s rest) refl

pub length-w_uint : (n v : ℕ) → length (w_uint n v) ≡ n
unfolding w_uint
length-w_uint zero v = refl
length-w_uint (suc n) v =
    omega (arith, length-append (w_uint n (v / 256)) ((v % 256) ∷ []), length-w_uint n (v / 256))

number-append : (u : ℕ) (a b : Bytes) → number u (a ++ b) ≡ number (number u a) b
unfolding number
number-append u [] b = refl
number-append u (x ∷ a) b = number-append (u * 256 + x) a b

number-w_uint : (n v : ℕ) → v < 256 ^ n → number 0 (w_uint n v) ≡ v
unfolding number w_uint
number-w_uint zero v h = omega arith
number-w_uint (suc n) v h =
    let h' : v < 256 ^ n * 256 = simp unary_clauses at h in
    let high = number-w_uint n (v / 256) (omega (arith, h')) in
    number-append 0 (w_uint n (v / 256)) ((v % 256) ∷ []) ∙ omega (arith, high)

r_need_exact : (n : ℕ) (s : Bytes) → length s ≡ n → Reads (r_need n) s s
r_need_exact n s h = rw (sym h) (r_need-Reads s)

-- The next `n` bytes as a number.
r_number :
    (n : ℕ) → (v : ℕ) → v < 256 ^ n → Reads (r_need n >>= λ t. return (number 0 t)) (w_uint n v) v
r_number n v h =
    Reads-to (r_need n >>= λ t. return (number 0 t)) (w_uint n v) _ _
      (Reads-map (r_need n) (number 0) (w_uint n v) (w_uint n v)
        (r_need_exact n (w_uint n v) (length-w_uint n v)))
      (number-w_uint n v h)

pub r_u8-Reads : (v : ℕ) → v < 256 → Reads r_u8 (w_u8 v) v
unfolding r_u8 w_u8 w_uint
r_u8-Reads v h = r_number 1 v (omega (arith, h))

pub r_u32-Reads : (v : ℕ) → v < 2 ^ 32 → Reads r_u32 (w_u32 v) v
unfolding r_u32 w_u32
r_u32-Reads v h = r_number 4 v (omega (arith, h))

pub r_u64-Reads : (v : ℕ) → v < 2 ^ 64 → Reads r_u64 (w_u64 v) v
unfolding r_u64 w_u64
r_u64-Reads v h = r_number 8 v (omega (arith, h))

pub r_bytes-Reads : (s : Bytes) → length s < 2 ^ 32 → Reads r_bytes (w_bytes s) s
unfolding r_bytes w_bytes
r_bytes-Reads s h =
    Reads-bind r_u32 r_need (w_u32 (length s)) s (length s) s (r_u32-Reads (length s) h)
      (r_need-Reads s)

to_s64-pos : (n : ℕ) → FitsLl (pos n) → to_s64 n ≡ pos n
unfolding to_s64
to_s64-pos n h = ground arith

to_s64-negsuc : (n : ℕ) → FitsLl (negsuc n) → to_s64 (2 ^ 64 - 1 - n) ≡ negsuc n
unfolding to_s64
to_s64-negsuc n h = ground arith

pub r_s64-Reads : (z : ℤ) → FitsLl z → Reads r_s64 (w_s64 z) z
unfolding r_s64 w_s64
r_s64-Reads (pos n) h =
    let back : to_s64 n ≡ pos n = to_s64-pos n h in
    rw (sym back) (Reads-map r_u64 to_s64 (w_u64 n) n (r_u64-Reads n (omega (arith, h.0))))
r_s64-Reads (negsuc n) h =
    let u = 2 ^ 64 - 1 - n in
    let back : to_s64 u ≡ negsuc n = to_s64-negsuc n h in
    rw (sym back) (Reads-map r_u64 to_s64 (w_u64 u) u (r_u64-Reads u (omega arith)))

-- A loop that reads what the writer's loop wrote takes the elements one after the other.
pub fold {ℓ κ} : {A : Type ℓ} {B : Type κ} → (A → B → A) → A → List B → A
fold add x [] = x
fold add x (y ∷ ys) = fold add (add x y) ys

abbrev pub Each {ℓ κ} : {A : Type ℓ} → (A → Type κ) → List A → Type κ
Each P [] = Unit
Each P (x ∷ xs) = P x × Each P xs

pub r_times-Reads {ℓ κ ι} :
    {A : Type ℓ} {B : Type κ} {P : B → Type ι} (step : A → Read A) (w : B → Bytes) (add : A → B → A)
    → ((x : A) (y : B) → P y → Reads (step x) (w y) (add x y))
    → (x : A) (ys : List B) → Each P ys
    → Reads (r_times (length ys) step x) (w_all w ys) (fold add x ys)
unfolding r_times w_all fold
r_times-Reads step w add one x [] h = Reads-return x
r_times-Reads step w add one x (y ∷ ys) h =
    Reads-bind (step x) (λ z. r_times (length ys) step z) (w y) (w_all w ys) (add x y)
      (fold add (add x y) ys) (one x y h.0) (r_times-Reads step w add one (add x y) ys h.1)

found_twice {ℓ} : {V : Type ℓ} {o : Option V} {v : V} → o ≡ none → o ≡ some v → ⊥
found_twice e f = absurd cc

-- What holds of the keys and values that a list of entries says holds of its entries.
pub Each-entries {ℓ κ} :
    {V : Type ℓ} (P : Bytes → V → Type κ) (es : List (Entry V))
    → ((q : Bytes) → count q es ≤ 1)
    → ((q : Bytes) (v : V) → find q es ≡ some v → P q v)
    → Each (λ (e : Entry V). P e.key e.val) es
unfolding find count
Each-entries P [] once h = tt
Each-entries P (e ∷ es) once h = (
  h e.key e.val (rw (bytes_eq_refl e.key) refl),
  Each-entries P es (λ q. ground (arith, once q))
      (λ q v found. elim (Bool-cases (bytes_eq e.key q)) [
        | inr other ↦ h q v (rw other found)
        | inl same ↦
            let none_left = find-eq-none q es (ground (arith, once q, same)) in
            absurd (found_twice none_left found)
      ]),
)
