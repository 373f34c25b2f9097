-- ===== src/Skiplist/Order.antt =====
-- zskiplist.c: the order of the nodes, by score and then by member.
use miniredis.Common.{
  ℕ, ◌+◌, Bytes, Bool, true, false, ◌&&◌, ◌||◌, List, [], ◌∷◌, ◌++◌, ◌≡◌, refl, ap, arith, inl, inr,
  ltb, bytes_eq, Bool-cases, leb_ℤ, ℤ, pos_part, neg_part, leb,
}
use miniredis.Double.{Double, lt_d, eq_d, is_nan, signed_bits}
use miniredis.Resp.RoundTrip.{All}
use miniredis.Skiplist.{Address, member_lt}
use miniredis.Skiplist.Chain.{All-append, All-left, All-right}

pub member_lt_irrefl : (a : Bytes) → member_lt a a ≡ false
unfolding member_lt
member_lt_irrefl [] = refl
member_lt_irrefl (a ∷ as') = ground (arith, member_lt_irrefl as')

member_lt_trans :
    (a b c : Bytes) → member_lt a b ≡ true → member_lt b c ≡ true → member_lt a c ≡ true
unfolding member_lt
member_lt_trans [] [] c h k = absurd cc
member_lt_trans a (y ∷ b) [] h k = absurd cc
member_lt_trans [] (y ∷ b) (w ∷ c) h k = refl
member_lt_trans (x ∷ a) [] c h k = absurd cc
member_lt_trans (x ∷ a) (y ∷ b) (w ∷ c) h k = ground (arith, member_lt_trans a b c)

member_lt_total :
    (a b : Bytes) → bytes_eq a b ≡ false → member_lt a b ≡ false → member_lt b a ≡ true
unfolding member_lt bytes_eq
member_lt_total [] [] n h = absurd cc
member_lt_total [] (y ∷ b) n h = absurd cc
member_lt_total (x ∷ a) [] n h = refl
member_lt_total (x ∷ a) (y ∷ b) n h = ground (arith, member_lt_total a b)

-- A score and a member.
abbrev pub Key : Type 0
Key = Double × Bytes

unfoldable pub prec : Key → Key → Bool
prec a b = lt_d a.0 b.0 || (eq_d a.0 b.0 && member_lt a.1 b.1)

abbrev pub Number : Key → Type 0
Number a = is_nan a.0 ≡ false

-- The comparison of two numbers, each a difference, and then of two members.
abbrev ord : ℕ → ℕ → ℕ → ℕ → Bool → Bool
ord p n p' n' m = ltb (p + n') (p' + n) || ((leb (p + n') (p' + n) && leb (p' + n) (p + n')) && m)

ord_trans :
    (p n p' n' p'' n'' : ℕ) (m m' m'' : Bool)
    → (m ≡ true → m' ≡ true → m'' ≡ true)
    → ord p n p' n' m ≡ true
    → ord p' n' p'' n'' m' ≡ true
    → ord p n p'' n'' m'' ≡ true
ord_trans p n p' n' p'' n'' false false m'' f h k = ground arith
ord_trans p n p' n' p'' n'' false true m'' f h k = ground arith
ord_trans p n p' n' p'' n'' true false m'' f h k = ground arith
ord_trans p n p' n' p'' n'' true true m'' f h k = rw (f refl refl) (ground (arith, h, k))

ord_total :
    (p n p' n' : ℕ) (m m' : Bool)
    → (m ≡ false → m' ≡ true)
    → ord p n p' n' m ≡ false
    → ord p' n' p n m' ≡ true
ord_total p n p' n' true m' f h = ground (arith, h)
ord_total p n p' n' false m' f h = rw (f refl) (ground (arith, h))

ord_irrefl : (p n : ℕ) → ord p n p n false ≡ false
ord_irrefl p n = ground arith

leb_self : (a : ℤ) → (leb_ℤ a a && leb_ℤ a a) ≡ true
leb_self a = ground arith

pub eq_d_refl : (a : Double) → is_nan a ≡ false → eq_d a a ≡ true
unfolding eq_d
eq_d_refl a n = rw n (leb_self (signed_bits a))

pub prec_irrefl : (a : Key) → Number a → prec a a ≡ false
unfolding prec lt_d eq_d
prec_irrefl a na =
    rw (na, member_lt_irrefl a.1)
      (ord_irrefl (pos_part (signed_bits a.0)) (neg_part (signed_bits a.0)))

pub prec_trans :
    (a b c : Key)
    → Number a
    → Number b
    → Number c
    → prec a b ≡ true
    → prec b c ≡ true
    → prec a c ≡ true
unfolding prec lt_d eq_d
prec_trans a b c na nb nc h k =
    let h' = rw (na, nb) at h in
    let k' = rw (nb, nc) at k in
    rw (na, nc)
      (ord_trans (pos_part (signed_bits a.0)) (neg_part (signed_bits a.0))
        (pos_part (signed_bits b.0)) (neg_part (signed_bits b.0)) (pos_part (signed_bits c.0))
        (neg_part (signed_bits c.0)) (member_lt a.1 b.1) (member_lt b.1 c.1) (member_lt a.1 c.1)
        (member_lt_trans a.1 b.1 c.1) h' k')

pub prec_total :
    (a b : Key)
    → Number a
    → Number b
    → bytes_eq a.1 b.1 ≡ false
    → prec a b ≡ false
    → prec b a ≡ true
unfolding prec lt_d eq_d
prec_total a b na nb n h =
    let h' = rw (na, nb) at h in
    rw (nb, na)
      (ord_total (pos_part (signed_bits a.0)) (neg_part (signed_bits a.0))
        (pos_part (signed_bits b.0)) (neg_part (signed_bits b.0)) (member_lt a.1 b.1)
        (member_lt b.1 a.1) (member_lt_total a.1 b.1 n) h')

-- Each key is before those behind it.
abbrev pub Sorted : (Address → Key) → List Address → Type 0
Sorted key [] = Unit
Sorted key (a ∷ as') = All (λ b. prec (key a) (key b) ≡ true) as' × Sorted key as'

-- Those before `t`, and the others.
pub record Split (key : Address → Key) (t : Key) (as' : List Address) : Type 0 where
  pub front : List Address
  pub back : List Address
  pub joined : as' ≡ front ++ back
  pub first : All (λ a. prec (key a) t ≡ true) front
  pub second : All (λ a. prec (key a) t ≡ false) back

none_before :
    (key : Address → Key) (t : Key) (c : Address) (as' : List Address)
    → Number t
    → Number (key c)
    → All (λ a. Number (key a)) as'
    → All (λ b. prec (key c) (key b) ≡ true) as'
    → prec (key c) t ≡ false
    → All (λ a. prec (key a) t ≡ false) as'
none_before key t c [] nt nc ns above h = tt
none_before key t c (a ∷ as') nt nc (na, ns) (lt, above) h = (
  elim (Bool-cases (prec (key a) t)) [
    | inr after ↦ after
    | inl earlier ↦ let both = prec_trans (key c) (key a) t nc na nt lt earlier in absurd cc
  ],
  none_before key t c as' nt nc ns above h,
)

pub split :
    (key : Address → Key) (t : Key) (as' : List Address)
    → Number t
    → All (λ a. Number (key a)) as'
    → Sorted key as'
    → Split key t as'
split key t [] nt ns s = record { front = []; back = []; joined = refl; first = tt; second = tt }
split key t (c ∷ as') nt (nc, ns) (above, s) = elim (Bool-cases (prec (key c) t)) [
  | inl earlier ↦
      let r = split key t as' nt ns s in
      record {
        front = c ∷ r.front;
        back = r.back;
        joined = ap (λ l. c ∷ l) r.joined;
        first = (earlier, r.first);
        second = r.second;
      }
  | inr after ↦ record {
    front = [];
    back = c ∷ as';
    joined = refl;
    first = tt;
    second = (after, none_before key t c as' nt nc ns above after);
  }
]

same_above :
    (key key' : Address → Key) (a : Address) (bs : List Address)
    → key' a ≡ key a
    → All (λ b. key' b ≡ key b) bs
    → All (λ b. prec (key a) (key b) ≡ true) bs
    → All (λ b. prec (key' a) (key' b) ≡ true) bs
same_above key key' a [] e es h = tt
same_above key key' a (b ∷ bs) e (e', es) (h, hs) = (rw (e, e') h, same_above key key' a bs e es hs)

-- A key between the two parts.
pub Sorted-insert :
    (key : Address → Key) (x : Address) (as' bs : List Address)
    → All (λ a. prec (key a) (key x) ≡ true) as'
    → All (λ b. prec (key x) (key b) ≡ true) bs
    → Sorted key (as' ++ bs)
    → Sorted key (as' ++ x ∷ bs)
Sorted-insert key x [] bs h k s = (k, s)
Sorted-insert key x (a ∷ as') bs h k s = (
  All-append (λ b. prec (key a) (key b) ≡ true) as' (x ∷ bs)
      (All-left (λ b. prec (key a) (key b) ≡ true) as' bs s.0)
      (h.0, All-right (λ b. prec (key a) (key b) ≡ true) as' bs s.0),
  Sorted-insert key x as' bs h.1 k s.1,
)

pub Sorted-delete :
    (key : Address → Key) (x : Address) (as' bs : List Address)
    → Sorted key (as' ++ x ∷ bs)
    → Sorted key (as' ++ bs)
Sorted-delete key x [] bs s = s.1
Sorted-delete key x (a ∷ as') bs s = (
  All-append (λ b. prec (key a) (key b) ≡ true) as' bs
      (All-left (λ b. prec (key a) (key b) ≡ true) as' (x ∷ bs) s.0)
      (All-right (λ b. prec (key a) (key b) ≡ true) as' (x ∷ bs) s.0).1,
  Sorted-delete key x as' bs s.1,
)

pub Sorted-same :
    (key key' : Address → Key) (as' : List Address)
    → All (λ a. key' a ≡ key a) as'
    → Sorted key as'
    → Sorted key' as'
Sorted-same key key' [] e s = tt
Sorted-same key key' (a ∷ as') (e, es) (h, s) =
    (same_above key key' a as' e es h, Sorted-same key key' as' es s)
