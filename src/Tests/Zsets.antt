-- ===== src/Tests/Zsets.antt =====
-- zskiplist.c: a skip list of three members, with draws that make nodes of several levels, and a
-- sorted set of one.
use miniredis.Common.{
  ℕ, Bytes, false, arith, List, some, none, [], ◌∷◌, ◌≡◌, ◌==◌, refl, if◌then◌else◌, get_or,
  bytes_eq, set, replicate, drop,
}
use miniredis.Double.{Double, lt_d, eq_d, is_nan, signed_bits, magnitude}
use miniredis.Skiplist.{
  Skiplist, Node, nodes_from, insert_node, level_at, node_at, put_backward, update_node, put_node,
  raise_level, zsl_random_level, random_level, put_level, search, descend, walk, before, member_lt,
  sub_ul, zsl_create_node, zsl_delete_node, is_node, zsl_create, zsl_insert, zsl_delete, zsl_nodes,
  zsl_get_rank,
}
use miniredis.Zset.{Zset, zset_create, zset_add, zset_remove}
use miniredis.Zset.Scores.{Scored, scores, score_after, added_of, is_member, zset_create-ZsetValid}
use miniredis.Zset.Ranking.{Ranked}
use miniredis.Zset.Ranking.Updates.{
  ranking_after, zset_create-Ranked, zset_add-Ranked, zset_remove-Ranked,
}
use miniredis.Skiplist.Keys.{without}
use miniredis.Skiplist.Order.{Key}

-- 1.0, 2.0 and -1.0
abbrev one : Double
one = 0x3ff0_0000_0000_0000

abbrev two : Double
two = 0x4000_0000_0000_0000

abbrev minus_one : Double
minus_one = 0xbff0_0000_0000_0000

abbrev draws : ℕ → ℕ
draws i = if i == 0 then 0 else 0xffff

abbrev low_draws : ℕ → ℕ
low_draws i = 0xffff

abbrev three : Skiplist
three =
    let z₁ = (zsl_insert draws two (b'b' ∷ []) zsl_create).1 in
    let z₂ = (zsl_insert low_draws one (b'c' ∷ []) z₁).1 in
    (zsl_insert draws minus_one (b'a' ∷ []) z₂).1

abbrev names : List Node → List Bytes
names [] = []
names (n ∷ ns) = n.member ∷ names ns

three_run : names (zsl_nodes three) ≡ (b'a' ∷ []) ∷ (b'c' ∷ []) ∷ (b'b' ∷ []) ∷ []
unfolding zsl_nodes nodes_from zsl_insert insert_node level_at node_at get_or put_backward
    update_node put_node raise_level zsl_create zsl_random_level random_level put_level search
    descend walk before lt_d eq_d is_nan signed_bits magnitude member_lt bytes_eq sub_ul set
    replicate drop zsl_create_node zsl_delete zsl_delete_node is_node zsl_get_rank
three_run = refl

rank_run : zsl_get_rank three one (b'c' ∷ []) ≡ 2
unfolding zsl_nodes nodes_from zsl_insert insert_node level_at node_at get_or put_backward
    update_node put_node raise_level zsl_create zsl_random_level random_level put_level search
    descend walk before lt_d eq_d is_nan signed_bits magnitude member_lt bytes_eq sub_ul set
    replicate drop zsl_create_node zsl_delete zsl_delete_node is_node zsl_get_rank
rank_run = refl

deleted_run :
    names (zsl_nodes (zsl_delete one (b'c' ∷ []) three).1) ≡ (b'a' ∷ []) ∷ (b'b' ∷ []) ∷ []
unfolding zsl_nodes nodes_from zsl_insert insert_node level_at node_at get_or put_backward
    update_node put_node raise_level zsl_create zsl_random_level random_level put_level search
    descend walk before lt_d eq_d is_nan signed_bits magnitude member_lt bytes_eq sub_ul set
    replicate drop zsl_create_node zsl_delete zsl_delete_node is_node zsl_get_rank
deleted_run = refl

abbrev bob : Bytes
bob = b'b' ∷ []

abbrev empty_set : Zset
empty_set = zset_create []

abbrev with_bob : Zset
with_bob = (zset_add draws empty_set two bob).1

abbrev bob_ranking : List Key
bob_ranking = (two, bob) ∷ []

two_is_number : is_nan two ≡ false
unfolding is_nan magnitude
two_is_number = refl

one_is_number : is_nan one ≡ false
unfolding is_nan magnitude
one_is_number = refl

no_score : scores empty_set bob ≡ none
no_score = (zset_create-ZsetValid []).1 bob

with_bob-Ranked : Ranked with_bob bob_ranking
with_bob-Ranked =
    let added =
      zset_add-Ranked draws two bob empty_set [] (zset_create-Ranked []) two_is_number
        (omega arith) in
    rw no_score at added.2

zset_add-Ranked_example :
    let r = zset_add draws with_bob one bob in
    (r.0 ≡ added_of (scores with_bob bob) one)
    × Scored with_bob bob (some (score_after (scores with_bob bob) one)) r.1
    × Ranked r.1 (ranking_after (scores with_bob bob) one bob bob_ranking)
zset_add-Ranked_example =
    zset_add-Ranked draws one bob with_bob bob_ranking with_bob-Ranked one_is_number (omega arith)

zset_remove-Ranked_example :
    let r = zset_remove with_bob bob in
    (r.0 ≡ is_member (scores with_bob bob))
    × Scored with_bob bob none r.1
    × Ranked r.1 (without bob bob_ranking)
zset_remove-Ranked_example =
    zset_remove-Ranked bob with_bob bob_ranking with_bob-Ranked (omega arith)
