-- ===== src/Pubsub/Deliveries.antt =====
-- pubsub.c: how often a client stands in the list of a channel.
use miniredis.Common.{
  ℕ, ◌+◌, ◌-◌, ◌≤◌, ◌≡◌, refl, arith, Bytes, Bool, true, false, Option, none, some, List, [], ◌∷◌,
  ◌++◌, ◌==◌, leb, Bool-cases, inl, inr, if◌then◌else◌, bytes_eq,
}
use miniredis.Dict.Laws.Valid.{IsValid, view}
use miniredis.Pubsub.{Pubsub, client_in_list, detach_first, detach_all}

abbrev pub bit : Bool → ℕ
bit true = 1
bit false = 0

pub bit_le : (b : Bool) → bit b + 0 ≤ 1
bit_le true = omega arith
bit_le false = omega arith

unfoldable pub times : ℕ → List ℕ → ℕ
times c [] = 0
times c (x ∷ l) = bit (x == c) + times c l

unfoldable pub members : Option (List ℕ) → List ℕ
members none = []
members (some l) = l

-- How often a message to the channel goes to the client.
unfoldable pub deliveries : Pubsub → Bytes → ℕ → ℕ
deliveries ps k c = times c (members (view ps.channels k))

pub client_in_list-times : (l : List ℕ) (c : ℕ) → client_in_list l c ≡ leb 1 (times c l)
unfolding client_in_list times
client_in_list-times [] c = ground arith
client_in_list-times (x ∷ l) c = elim (Bool-cases (x == c)) [
  | inl same ↦ rw same (ground arith)
  | inr other ↦ rw other (ground (arith, client_in_list-times l c))
]

pub times-append : (c : ℕ) (l m : List ℕ) → times c (l ++ m) ≡ times c l + times c m
unfolding times
times-append c [] m = omega arith
times-append c (x ∷ l) m = omega (arith, times-append c l m)

pub times-detach_first :
    (c c' : ℕ) (l : List ℕ)
    → times c' (detach_first c l) ≡ (if c == c' then times c' l - 1 else times c' l)
unfolding times detach_first
times-detach_first c c' [] = ground arith
times-detach_first c c' (x ∷ l) = ground (arith, times-detach_first c c' l)

pub times-detach_all :
    (c c' : ℕ) (l : List ℕ) → times c' (detach_all c l) ≡ (if c == c' then 0 else times c' l)
unfolding times detach_all
times-detach_all c c' [] = ground arith
times-detach_all c c' (x ∷ l) = ground (arith, times-detach_all c c' l)

-- The sum over a list of channels.
unfoldable pub sum : (Bytes → ℕ) → List Bytes → ℕ
sum f [] = 0
sum f (k ∷ ks) = f k + sum f ks

pub sum-plus-le :
    (f b g : Bytes → ℕ) (ks : List Bytes)
    → ((k : Bytes) → g k ≤ b k + f k)
    → sum g ks ≤ sum b ks + sum f ks
unfolding sum
sum-plus-le f b g [] h = omega arith
sum-plus-le f b g (k ∷ ks) h = omega (arith, h k, sum-plus-le f b g ks h)

pub sum-plus :
    (f b g : Bytes → ℕ) (ks : List Bytes)
    → ((k : Bytes) → g k + b k ≡ f k)
    → sum g ks + sum b ks ≡ sum f ks
unfolding sum
sum-plus f b g [] h = omega arith
sum-plus f b g (k ∷ ks) h = omega (arith, h k, sum-plus f b g ks h)

pub sum-eq : (f g : Bytes → ℕ) (ks : List Bytes) → ((k : Bytes) → g k ≡ f k) → sum g ks ≡ sum f ks
unfolding sum
sum-eq f g [] h = refl
sum-eq f g (k ∷ ks) h = omega (arith, h k, sum-eq f g ks h)

pub sum_zero : (f : Bytes → ℕ) (ks : List Bytes) → ((k : Bytes) → f k ≡ 0) → sum f ks ≡ 0
unfolding sum
sum_zero f [] h = refl
sum_zero f (k ∷ ks) h = omega (arith, h k, sum_zero f ks h)

-- No channel stands twice.
abbrev pub Distinct : List Bytes → Type 0
Distinct ks = (q : Bytes) → sum (λ k. bit (bytes_eq q k)) ks ≤ 1

-- The invariant: a well-formed dictionary, no client twice in a list, and a client stands in at
-- most as many lists as it counts.
pub record PubsubValid (ps : Pubsub) : Type 0 where
  pub channels : IsValid ps.channels
  pub once : (k : Bytes) (c : ℕ) → deliveries ps k c ≤ 1
  pub counted :
      (c : ℕ) (ks : List Bytes)
      → Distinct ks
      → sum (λ k. deliveries ps k c) ks ≤ (ps.clients c).subscribed
