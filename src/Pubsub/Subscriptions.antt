-- ===== src/Pubsub/Subscriptions.antt =====
-- pubsub.c: what subscribing does to the lists of the channels.
use miniredis.Common.{
  ℕ, ◌+◌, ◌≤◌, ◌≡◌, refl, sym, ap, ◌∙◌, arith, Bytes, true, ◌&&◌, some, List, [], ◌∷◌, ◌++◌, ◌==◌,
  Bool-cases, Option-cases, inl, inr, if◌then◌else◌, bytes_eq, bytes_eq_refl, eq_of_bytes_eq,
}
use miniredis.Dict.{Dict, dict_assign}
use miniredis.Dict.Laws.Valid.{IsValid, view, dict_get-view}
use miniredis.Dict.Laws.Ops.{dict_set-Writes, dict_assign-Writes}
use miniredis.Pubsub.{
  Pubsub, channel_list, join_list, pubsub_subscribe, set_client, set_subscribed, client_in_list,
}
use miniredis.Pubsub.Deliveries.{
  times, members, deliveries, client_in_list-times, times-append, bit, sum, sum-plus-le, sum-eq,
  Distinct, PubsubValid,
}

pub members_some : (l : List ℕ) → members (some l) ≡ l
unfolding members
members_some l = refl

-- The lists that a dictionary holds.
abbrev pub at : Dict (List ℕ) → Bytes → ℕ → ℕ
at d k c = times c (members (view d k))

-- Another list for one channel.
pub record Puts (d : Dict (List ℕ)) (chan : Bytes) (l : List ℕ) (d' : Dict (List ℕ)) : Type 0 where
  pub valid : IsValid d'
  pub puts : (k : Bytes) (c : ℕ) → at d' k c ≡ (if bytes_eq chan k then times c l else at d k c)

pub Puts-assign :
    (d : Dict (List ℕ)) (chan : Bytes) (old l : List ℕ)
    → IsValid d
    → view d chan ≡ some old
    → Puts d chan l (dict_assign d chan l)
unfolding members
Puts-assign d chan old l v e =
    let w = dict_assign-Writes d chan l old v e in
    record {
      valid = w.valid;
      puts = λ k c. elim (Bool-cases (bytes_eq chan k)) [
        | inl same ↦ rw (w.views k, same) refl
        | inr other ↦ rw (w.views k, other) refl
      ];
    }

-- The channel has a list, which is the one that it had, or the empty one.
record Opened (d : Dict (List ℕ)) (chan : Bytes) (r : List ℕ × Dict (List ℕ)) : Type 0 where
  valid : IsValid r.1
  lists : view r.1 chan ≡ some r.0
  same : (k : Bytes) → members (view r.1 k) ≡ members (view d k)

channel_list-Opened :
    (d : Dict (List ℕ)) (chan : Bytes)
    → IsValid d
    → Opened d chan (channel_list d chan (view d chan))
unfolding channel_list members
channel_list-Opened d chan v = elim (Option-cases (view d chan)) [
  | inr (l, e) ↦ rw e (record { valid = v; lists = e; same = λ k. refl })
  | inl e ↦
      let w = dict_set-Writes d chan [] v in
      rw e (record {
        valid = w.valid;
        lists = w.views chan ∙ rw (bytes_eq_refl chan) refl;
        same = λ k. elim (Bool-cases (bytes_eq chan k)) [
          | inl eq ↦ rw (w.views k, eq, sym (eq_of_bytes_eq chan k eq), e) refl
          | inr other ↦ rw (w.views k, other) refl
        ];
      })
]

-- The client stands once in the list of the channel, and the rest is as before.
record Joined (d : Dict (List ℕ)) (chan : Bytes) (c : ℕ) (d' : Dict (List ℕ)) : Type 0 where
  valid : IsValid d'
  joined :
      (k : Bytes) (c' : ℕ) → at d' k c' ≡ (if bytes_eq chan k && (c == c') then 1 else at d k c')

join_list-Joined :
    (d : Dict (List ℕ)) (chan : Bytes) (c : ℕ) (r : List ℕ × Dict (List ℕ))
    → at d chan c ≤ 1
    → Opened d chan r
    → Joined d chan c (join_list c chan r)
unfolding join_list times
join_list-Joined d chan c (l, d₁) once o =
    let held = λ (q : ℕ). ap (times q) (sym (o.same chan) ∙ ap members o.lists ∙ members_some l) in
    let here = λ (k : Bytes) (q : ℕ) (e : bytes_eq chan k ≡ true).
      ap (λ x. at d x q) (sym (eq_of_bytes_eq chan k e)) ∙ held q in
    elim (Bool-cases (client_in_list l c)) [
      | inl there ↦ rw there (record {
        valid = o.valid;
        joined = λ k c'. elim (Bool-cases (bytes_eq chan k)) [
          | inl same ↦ rw same (
              ground (
                arith,
                held c,
                once,
                here k c' same,
                there,
                client_in_list-times l c,
                ap (times c') (o.same k),
              ))
          | inr other ↦ rw other (ap (times c') (o.same k))
        ];
      })
      | inr new ↦
          let p = Puts-assign d₁ chan l (l ++ c ∷ []) o.valid o.lists in
          rw new (record {
            valid = p.valid;
            joined = λ k c'. elim (Bool-cases (bytes_eq chan k)) [
              | inl same ↦
                  let put = p.puts k c' in
                  rw same (
                    ground (
                      arith,
                      put,
                      same,
                      here k c' same,
                      new,
                      client_in_list-times l c,
                      times-append c' l (c ∷ []),
                    ))
              | inr other ↦ rw other (p.puts k c' ∙ rw other (ap (times c') (o.same k)))
            ];
          })
    ]

-- One more channel for one client.
counted_join :
    (f g : Bytes → ℕ) (chan : Bytes) (n : ℕ) (ks : List Bytes)
    → ((k : Bytes) → g k ≤ bit (bytes_eq chan k) + f k)
    → Distinct ks
    → sum f ks ≤ n
    → sum g ks ≤ n + 1
counted_join f g chan n ks h distinct counted =
    omega (arith, sum-plus-le f (λ k. bit (bytes_eq chan k)) g ks h, distinct chan, counted)

-- On a well-formed registry, a client that subscribes stands once in the list of the channel, even
-- where it stood there before, the other subscriptions are as they were, the count that is returned
-- is one more, and the registry stays well formed: no client stands twice in a list, and none
-- stands in more lists than it counts.
pub pubsub_subscribe-Joined :
    (ps : Pubsub) (c : ℕ) (chan : Bytes)
    → PubsubValid ps
    → let r = pubsub_subscribe ps c chan in
      PubsubValid r.1
      × (r.0 ≡ (ps.clients c).subscribed + 1)
      × ((k : Bytes) (c' : ℕ)
          → deliveries r.1 k c' ≡ (if bytes_eq chan k && (c == c') then 1 else deliveries ps k c'))
unfolding pubsub_subscribe deliveries set_subscribed set_client
pubsub_subscribe-Joined ps c chan v =
    let d = ps.channels in
    let j : Joined d chan c (pubsub_subscribe ps c chan).1.channels =
      rw (dict_get-view d chan v.channels) (
        join_list-Joined d chan c (channel_list d chan (view d chan)) (v.once chan c)
          (channel_list-Opened d chan v.channels)) in
    (
      record {
        channels = j.valid;
        once = λ k c'. ground (arith, j.joined k c', v.once k c');
        counted = λ c' ks distinct. elim (Bool-cases (c == c')) [
          | inl same ↦
              let e : c ≡ c' = ground (arith, same) in
              let more =
                counted_join (λ k. deliveries ps k c')
                  (λ k. deliveries (pubsub_subscribe ps c chan).1 k c') chan _ ks
                  (λ k. ground (arith, j.joined k c', v.once k c')) distinct
                  (v.counted c' ks distinct) in
              rw same (omega (arith, more, ap (λ x. (ps.clients x).subscribed) e))
          | inr other ↦
              let kept =
                sum-eq (λ k. deliveries ps k c')
                  (λ k. deliveries (pubsub_subscribe ps c chan).1 k c') ks
                  (λ k. ground (arith, j.joined k c', other)) in
              rw other (omega (arith, kept, v.counted c' ks distinct))
        ];
      },
      refl,
      j.joined,
    )
