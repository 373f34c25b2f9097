-- ===== src/Db/Lists/Ends.antt =====
-- db.c, list.c: pushes, pops and trims as operations on sequences.
use miniredis.Common.{
  ℕ, zero, suc, ◌+◌, ◌-◌, ◌≤◌, Bytes, Bool, true, false, some, none, List, [], ◌∷◌, ◌++◌, ◌≡◌, ◌∙◌,
  refl, sym, ap, ap₂, inl, inr, arith, append_assoc, append-nil, length, min, length-append, take,
  drop, drop-append_self, length-take, length-drop, take-drop, Bool-cases, leb, c_str,
}
use miniredis.Db.Lists.{list_push, list_pop, list_pop_tail, push_loop, pop_loop, list_pop_head}
use miniredis.Db.Lists.Ranges.{pop_tails, trim, slice}

-- What was pushed at an end of a list is popped from that end, and the list is as before.
pub list_pop-list_push :
    (head : Bool) (l : List Bytes) (v : Bytes) → list_pop head (list_push head l v) ≡ some (v, l)
unfolding list_pop list_push list_pop_tail
list_pop-list_push true l v = refl
list_pop-list_push false [] v = refl
list_pop-list_push false (w ∷ []) v = refl
list_pop-list_push false (w ∷ x ∷ l) v =
    let h = list_pop-list_push false (x ∷ l) v in
    unfold list_pop list_push list_pop_tail in rw h refl

last_of :
    (w : Bytes) (l : List Bytes)
    → (v : Bytes) × (list_pop_tail (w ∷ l) ≡ some (v, take (length l) (w ∷ l)))
unfolding list_pop_tail take
last_of w [] = (w, refl)
last_of w (x ∷ l) = let (v, e) = last_of x l in (v, rw e refl)

pub empty-of_list_pop : (head : Bool) (l : List Bytes) → list_pop head l ≡ none → l ≡ []
unfolding list_pop list_pop_head
empty-of_list_pop head [] h = refl
empty-of_list_pop true (x ∷ l) h = absurd cc
empty-of_list_pop false (x ∷ l) h = let (v, e) = last_of x l in absurd cc

module _ {ℓ} {A : Type ℓ} where
  take-take : (n m : ℕ) (l : List A) → n ≤ m → take n (take m l) ≡ take n l
  unfolding take
  take-take zero m l h = refl
  take-take (suc n) zero l h = absurd (omega arith)
  take-take (suc n) (suc m) [] h = refl
  take-take (suc n) (suc m) (x ∷ l) h = ap (λ t. x ∷ t) (take-take n m l (omega arith))

  take-all : (n : ℕ) (l : List A) → length l ≤ n → take n l ≡ l
  unfolding take
  take-all zero [] h = refl
  take-all zero (x ∷ l) h = absurd (omega arith)
  take-all (suc n) [] h = refl
  take-all (suc n) (x ∷ l) h = ap (λ t. x ∷ t) (take-all n l (omega arith))

pop_tails-take : (n : ℕ) (l : List Bytes) → n ≤ length l → pop_tails n l ≡ take (length l - n) l
unfolding pop_tails list_pop
pop_tails-take zero l h = sym (take-all (length l - 0) l (omega arith))
pop_tails-take (suc n) [] h = absurd (omega arith)
pop_tails-take (suc n) (w ∷ l) h =
    let (v, e) = last_of w l in
    let l' = take (length l) (w ∷ l) in
    let size : length l' ≡ length l = omega (arith, length-take (length l) (w ∷ l)) in
    let left : length l' - n ≡ suc (length l) - suc n = omega (arith, size) in
    rw (pop_tails, e)
      (pop_tails-take n l' (omega (arith, size))
        ∙ ap (λ k. take k l') left
        ∙ take-take (suc (length l) - suc n) (length l) (w ∷ l) (omega arith))

-- LTRIM, which drops nodes from the head and then pops from the tail, keeps the elements that
-- LRANGE shows for the same normalised range.
pub trim-slice : (start stop : ℕ) (l : List Bytes) → trim start stop l ≡ slice start stop l
unfolding trim slice
trim-slice start stop l =
    let l' = drop start l in
    let k = stop - start + 1 in
    pop_tails-take (length l' - k) l' (omega arith) ∙ elim (Bool-cases (leb k (length l'))) [
      | inl short ↦ ap (λ n. take n l') (ground arith)
      | inr long ↦
          let all : length l' ≤ length l' - (length l' - k) = ground arith in
          take-all _ l' all ∙ sym (take-all k l' (ground arith))
    ]

-- The arguments as C strings.
abbrev pub c_strs : List Bytes → List Bytes
c_strs [] = []
c_strs (v ∷ vs) = c_str v ∷ c_strs vs

length-c_strs : (vs : List Bytes) → length (c_strs vs) ≡ length vs
length-c_strs [] = refl
length-c_strs (v ∷ vs) = ap suc (length-c_strs vs)

push_loop-tail : (vs l : List Bytes) → push_loop false vs l ≡ l ++ c_strs vs
unfolding push_loop list_push
push_loop-tail [] l = sym (append-nil l)
push_loop-tail (v ∷ vs) l =
    push_loop-tail vs (l ++ c_str v ∷ []) ∙ append_assoc l (c_str v ∷ []) (c_strs vs)

pop_loop-head : (n : ℕ) (l : List Bytes) → pop_loop true n l ≡ (take n l, drop n l)
unfolding pop_loop list_pop take drop list_pop_head
pop_loop-head zero l = refl
pop_loop-head (suc n) [] = refl
pop_loop-head (suc n) (v ∷ l) = rw (pop_loop-head n l) refl

-- Elements that RPUSH put behind a list come out of the loop of LPOP in the order in which they
-- were pushed, as C strings, after the elements that stood there, and nothing is left.
pub pop_loop-push_loop :
    (vs l : List Bytes)
    → pop_loop true (length l + length vs) (push_loop false vs l) ≡ (l ++ c_strs vs, [])
pop_loop-push_loop vs l =
    let q = l ++ c_strs vs in
    let size : length q ≡ length l + length vs =
      omega (arith, length-append l (c_strs vs), length-c_strs vs) in
    let none_left : drop (length l + length vs) q ≡ [] =
      rw (← size) (ap (drop (length q)) (sym (append-nil q)) ∙ drop-append_self q []) in
    ap (pop_loop true (length l + length vs)) (push_loop-tail vs l)
    ∙ pop_loop-head (length l + length vs) q
    ∙ rw (take-all (length l + length vs) q (omega (arith, size)), none_left) refl

-- The elements from the last to the first.
unfoldable pub backwards : List Bytes → List Bytes
backwards [] = []
backwards (v ∷ l) = backwards l ++ v ∷ []

length-backwards : (l : List Bytes) → length (backwards l) ≡ length l
unfolding backwards
length-backwards [] = refl
length-backwards (v ∷ l) = omega (arith, length-append (backwards l) (v ∷ []), length-backwards l)

backwards-append : (a b : List Bytes) → backwards (a ++ b) ≡ backwards b ++ backwards a
unfolding backwards
backwards-append [] b = sym (append-nil (backwards b))
backwards-append (v ∷ a) b =
    ap (λ t. t ++ v ∷ []) (backwards-append a b) ∙ append_assoc (backwards b) (backwards a) (v ∷ [])

backwards-backwards : (l : List Bytes) → backwards (backwards l) ≡ l
unfolding backwards
backwards-backwards [] = refl
backwards-backwards (v ∷ l) =
    backwards-append (backwards l) (v ∷ []) ∙ ap (λ t. v ∷ t) (backwards-backwards l)

-- The list after a push at its head or its tail, whose last argument comes to stand outermost.
unfoldable pub with_pushed : Bool → List Bytes → List Bytes → List Bytes
with_pushed true vs l = backwards (c_strs vs) ++ l
with_pushed false vs l = l ++ c_strs vs

pub push_loop-with_pushed :
    (head : Bool) (vs l : List Bytes) → push_loop head vs l ≡ with_pushed head vs l
unfolding push_loop list_push with_pushed backwards
push_loop-with_pushed false vs l = push_loop-tail vs l
push_loop-with_pushed true [] l = refl
push_loop-with_pushed true (v ∷ vs) l =
    push_loop-with_pushed true vs (c_str v ∷ l)
    ∙ sym (append_assoc (backwards (c_strs vs)) (c_str v ∷ []) l)

-- The `n` elements at an end, from the end inwards, and the elements that are left.
unfoldable pub ends_of : Bool → ℕ → List Bytes → List Bytes
ends_of true n l = take n l
ends_of false n l = backwards (drop (length l - n) l)

unfoldable pub left_of : Bool → ℕ → List Bytes → List Bytes
left_of true n l = drop n l
left_of false n l = take (length l - n) l

pop_loop-tail :
    (r front : List Bytes) → pop_loop false (length r) (front ++ backwards r) ≡ (r, front)
unfolding pop_loop list_push backwards
pop_loop-tail [] front = ap (λ t. ([], t)) (append-nil front)
pop_loop-tail (v ∷ r) front =
    let e = sym (append_assoc front (backwards r) (v ∷ [])) in
    let inner = front ++ backwards r in
    let popped : list_pop false (inner ++ v ∷ []) ≡ some (v, inner) =
      list_pop-list_push false inner v in
    rw (e, pop_loop, popped, pop_loop-tail r front) refl

pub pop_loop-ends_of :
    (head : Bool) (n : ℕ) (l : List Bytes)
    → n ≤ length l
    → pop_loop head n l ≡ (ends_of head n l, left_of head n l)
unfolding ends_of left_of
pop_loop-ends_of true n l h = pop_loop-head n l
pop_loop-ends_of false n l h =
    let k = length l - n in
    let r = backwards (drop k l) in
    let size : length r ≡ n = omega (arith, length-backwards (drop k l), length-drop k l) in
    let whole : take k l ++ backwards r ≡ l =
      ap (λ t. take k l ++ t) (backwards-backwards (drop k l)) ∙ take-drop k l in
    ap₂ (pop_loop false) (sym size) (sym whole) ∙ pop_loop-tail r (take k l)

-- One element.
list_pop-empty : (head : Bool) (r : Bytes × List Bytes) → list_pop head [] ≡ some r → ⊥
unfolding list_pop list_pop_head list_pop_tail
list_pop-empty true r e = absurd cc
list_pop-empty false r e = absurd cc

pub list_pop-ends_of :
    (head : Bool) (l : List Bytes) (r : Bytes × List Bytes)
    → list_pop head l ≡ some r
    → (ends_of head (min 1 (length l)) l ≡ r.0 ∷ []) × (left_of head (min 1 (length l)) l ≡ r.1)
unfolding pop_loop
list_pop-ends_of head [] r e = absurd (list_pop-empty head r e)
list_pop-ends_of head (v ∷ l) r e =
    let one : min 1 (length (v ∷ l)) ≡ 1 = omega arith in
    let both : (ends_of head 1 (v ∷ l), left_of head 1 (v ∷ l)) ≡ (r.0 ∷ [], r.1) =
      sym (pop_loop-ends_of head 1 (v ∷ l) (omega arith)) ∙ rw (pop_loop, e) refl in
    rw one (ap (λ p. p.0) both, ap (λ p. p.1) both)

pub ends_of-nil : (head : Bool) (n : ℕ) → ends_of head n [] ≡ []
unfolding ends_of take drop backwards
ends_of-nil true zero = refl
ends_of-nil true (suc n) = refl
ends_of-nil false n =
    let zero_left : 0 - n ≡ 0 = omega arith in ap (λ k. backwards (drop {A = Bytes} k [])) zero_left
