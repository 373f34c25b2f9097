-- ===== src/Zset.antt =====
-- zskiplist.c `zset_…`: the value of a sorted set, a dictionary from the members to their nodes beside
-- the skip list of the nodes.
pub mod Scores
pub mod Ranking
use miniredis.Common.{ℕ, Bytes, Bool, true, false, Option, none, some, ◌==◌, if◌then◌else◌}
use miniredis.Dict.{Dict, dict_create, dict_get, dict_set, dict_delete}
use miniredis.Double.{Double, eq_d}
use miniredis.Skiplist.{Address, Node, Skiplist, node_at, zsl_create, zsl_insert, zsl_delete}

pub record Zset : Type 0 where
  pub dict : Dict Address
  pub zsl : Skiplist

unfoldable pub zset_create : Bytes → Zset
zset_create seed = record { dict = dict_create seed; zsl = zsl_create }

unfoldable pub zset_len : Zset → ℕ
zset_len z = z.zsl.length

-- The node of a member.
unfoldable pub node_of : Zset → Bytes → Option Address
node_of z member = dict_get z.dict member

-- A score that is the same, 0; a new member, 1; a new score, 2.
pub data Added : Type 0 where
  same_score new_member new_score : Added

-- The new node and its entry; the draws of `rand` that are left.
unfoldable pub zset_link : (ℕ → ℕ) → Double → Bytes → Zset → Zset × (ℕ → ℕ)
zset_link rand score member z =
    let (x, zsl, rand') = zsl_insert rand score member z.zsl in
    (record { dict = (dict_set z.dict member x).1; zsl = zsl }, rand')

-- The node of a member leaves both.
unfoldable pub zset_unlink : Bytes → Address → Zset → Zset
zset_unlink member x z =
    let n = node_at z.zsl x in
    record { dict = (dict_delete z.dict member).1; zsl = (zsl_delete n.score n.member z.zsl).1 }

zset_add_found : (ℕ → ℕ) → Double → Bytes → Zset → Option Address → Added × Zset × (ℕ → ℕ)
zset_add_found rand score member z none =
    let (z', rand') = zset_link rand score member z in (new_member, z', rand')
zset_add_found rand score member z (some x) =
    let (z', rand') = zset_link rand score member (zset_unlink member x z) in
    if eq_d (node_at z.zsl x).score score then (same_score, z, rand) else (new_score, z', rand')

unfoldable pub zset_add : (ℕ → ℕ) → Zset → Double → Bytes → Added × Zset × (ℕ → ℕ)
unfolding zset_add_found
zset_add rand z score member = zset_add_found rand score member z (node_of z member)

zset_remove_found : Bytes → Zset → Option Address → Bool × Zset
zset_remove_found member z none = (false, z)
zset_remove_found member z (some x) = (true, zset_unlink member x z)

unfoldable pub zset_remove : Zset → Bytes → Bool × Zset
unfolding zset_remove_found
zset_remove z member = zset_remove_found member z (node_of z member)

score_at : Skiplist → Option Address → Option Double
score_at z none = none
score_at z (some x) = some (node_at z x).score

unfoldable pub zset_score : Zset → Bytes → Option Double
unfolding score_at
zset_score z member = score_at z.zsl (node_of z member)
