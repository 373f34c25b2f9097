-- ===== src/Skiplist/Valid.antt =====
-- zskiplist.c: the invariant of a skip list: one sorted list of nodes, each level a part of it.
use miniredis.Common.{
  ℕ, ◌≤◌, ◌<◌, Bytes, false, Option, none, some, List, [], ◌++◌, ◌≡◌, refl, sym, ap, ◌∙◌, arith,
  length, length-append,
}
use miniredis.Double.{Double, is_nan}
use miniredis.Resp.RoundTrip.{All}
use miniredis.Skiplist.{
  Address, Node, Skiplist, node_at, header, before, or_blank, search, or_blank,
}
use miniredis.Skiplist.Entries.{entry, entry_of}
use miniredis.Skiplist.Links.{height}
use miniredis.Skiplist.Chain.{Linked, tall, Distinct, All-left, All-map}
use miniredis.Skiplist.Search.{Found, search-Found}
use miniredis.Skiplist.Order.{Key, prec, Sorted, Split, split}

unfoldable pub key : Skiplist → Address → Key
key z a = ((node_at z a).score, (node_at z a).member)

abbrev key_of : Option (Bytes × Double) → Key
key_of none = (0, [])
key_of (some e) = (e.1, e.0)

key_of-entry_of :
    (n : Option Node)
    → ◌≡◌ {A = Key} ((or_blank n).score, (or_blank n).member) (key_of (entry_of n))
key_of-entry_of none = refl
key_of-entry_of (some n) = refl

key-entry : (z : Skiplist) (a : Address) → key z a ≡ key_of (entry z a)
unfolding key entry node_at
key-entry z a = key_of-entry_of (z.nodes a)

pub key-same : (z z' : Skiplist) (a : Address) → entry z' a ≡ entry z a → key z' a ≡ key z a
key-same z z' a e = key-entry z' a ∙ ap key_of e ∙ sym (key-entry z a)

pub key-some :
    (z : Skiplist) (a : Address) (m : Bytes) (s : Double)
    → entry z a ≡ some (m, s)
    → key z a ≡ (s, m)
key-some z a m s e = key-entry z a ∙ ap key_of e

-- A node of the list.
pub record Listed (z : Skiplist) (a : Address) : Type 0 where
  pub past_header : 0 < a
  pub given : a < z.next_address
  pub linked : 1 ≤ height z a
  pub low : height z a ≤ z.level
  pub not_nan : is_nan (key z a).0 ≡ false

pub record SkipValid (z : Skiplist) (as' : List Address) : Type 0 where
  pub linked : (i : ℕ) → Linked z i header (tall (height z) i as')
  pub top : height z header ≡ 32
  pub some_level : 1 ≤ z.level
  pub few_levels : z.level ≤ 32
  pub listed : All (Listed z) as'
  pub distinct : Distinct as'
  pub few : length as' < z.next_address
  pub sorted : Sorted (key z) as'
  pub count : z.length ≡ length as'

pub All-both_parts :
    (P : Address → Type 0) (as' bs cs : List Address)
    → as' ≡ bs ++ cs
    → All P as'
    → All P (bs ++ cs)
All-both_parts P as' bs cs e h = rw (sym e) h

-- Where a score and a member belong, and what the search finds there.
pub record Place (z : Skiplist) (t : Key) (as' : List Address) : Type 0 where
  pub parts : Split (key z) t as'
  pub found : Found z parts.front z.level (search z (before t.0 t.1))

pub place :
    (z : Skiplist) (as' : List Address) (s : Double) (m : Bytes)
    → SkipValid z as'
    → is_nan s ≡ false
    → Place z (s, m) as'
unfolding before prec key
place z as' s m v n =
    let p = split (key z) (s, m) as' n (All-map as' (λ a l. l.not_nan) v.listed) v.sorted in
    let room = length-append p.front p.back in
    let joined = ap length p.joined in
    let low =
      All-left (λ a. height z a ≤ z.level) p.front p.back
        (All-both_parts (λ a. height z a ≤ z.level) as' p.front p.back p.joined
          (All-map as' (λ a l. l.low) v.listed)) in
    record {
      parts = p;
      found =
          search-Found z (before s m) (λ a. prec (key z a) (s, m)) p.front p.back (λ r b. refl)
            (record {
              first = p.first;
              second = p.second;
              linked = λ i. rw (sym p.joined) (v.linked i);
              few = omega (arith, room, joined, v.few);
            })
            low;
    }
