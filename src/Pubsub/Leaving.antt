-- ===== src/Pubsub/Leaving.antt =====
-- pubsub.c: what leaving a channel does to its list.
use miniredis.Common.{
  ℕ, ◌-◌, ◌≤◌, ◌≡◌, refl, sym, ap, ap₂, ◌∙◌, arith, Bytes, true, ◌&&◌, Option, none, some, List,
  ◌∷◌, ◌==◌, Bool-cases, inl, inr, if◌then◌else◌, bytes_eq, eq_of_bytes_eq,
}
use miniredis.Dict.{Dict, dict_get, dict_assign}
use miniredis.Dict.Laws.Valid.{IsValid, view, dict_get-view}
use miniredis.Pubsub.{
  Pubsub, leave_list, pubsub_unsubscribe, set_client, set_subscribed, client_in_list, detach_first,
}
use miniredis.Pubsub.Deliveries.{
  times, members, deliveries, client_in_list-times, times-detach_first, bit, sum, sum-plus, sum-eq,
  Distinct, PubsubValid,
}
use miniredis.Pubsub.Subscriptions.{members_some, at, Puts-assign}

-- One channel less for one client.
counted_leave :
    (f g : Bytes → ℕ) (chan : Bytes) (n : ℕ) (ks : List Bytes)
    → f chan ≡ 1
    → ((k : Bytes) → g k ≡ (if bytes_eq chan k then 0 else f k))
    → Distinct ks
    → ((ks' : List Bytes) → Distinct ks' → sum f ks' ≤ n)
    → sum g ks ≤ n - 1
unfolding sum
counted_leave f g chan n ks one h distinct counted =
    let b : Bytes → ℕ = λ k. bit (bytes_eq chan k) in
    let gone = sum-plus f b g ks (λ k. elim (Bool-cases (bytes_eq chan k)) [
      | inl same ↦ rw (h k, same) (sym one ∙ ap f (eq_of_bytes_eq chan k same))
      | inr other ↦ rw (h k, other) (omega arith)
    ]) in
    elim (Bool-cases (sum b ks == 0)) [
      | inr present ↦ ground (arith, present, gone, counted ks distinct)
      | inl absent ↦
          let distinct' : Distinct (chan ∷ ks) = λ q. elim (Bool-cases (bytes_eq q chan)) [
            | inl same ↦
                let moved =
                  ap (λ x. sum (λ k. bit (bytes_eq x k)) ks) (eq_of_bytes_eq q chan same) in
                rw same (ground (arith, absent, moved))
            | inr other ↦ rw other (omega (arith, distinct q))
          ] in
          ground (arith, absent, gone, one, counted (chan ∷ ks) distinct')
    ]

-- The client stands in no list of the channel, and the rest is as before.
pub record Left (ps : Pubsub) (c : ℕ) (chan : Bytes) (ps' : Pubsub) : Type 0 where
  pub valid : PubsubValid ps'
  pub left :
      (k : Bytes) (c' : ℕ)
      → deliveries ps' k c' ≡ (if bytes_eq chan k && (c == c') then 0 else deliveries ps k c')

Left-absent :
    (ps : Pubsub) (c : ℕ) (chan : Bytes)
    → PubsubValid ps
    → deliveries ps chan c ≡ 0
    → Left ps c chan ps
Left-absent ps c chan v none_there = record {
  valid = v;
  left = λ k c'. elim (Bool-cases (bytes_eq chan k)) [
    | inr other ↦ rw other refl
    | inl same ↦ elim (Bool-cases (c == c')) [
      | inr other ↦ rw (same, other) refl
      | inl eq ↦
          let e : c ≡ c' = ground (arith, eq) in
          rw (same, eq)
            (ap₂ (λ x y. deliveries ps x y) (sym (eq_of_bytes_eq chan k same)) (sym e) ∙ none_there)
    ]
  ];
}

detached :
    (d : Dict (List ℕ)) (c : ℕ) (chan : Bytes) (l : List ℕ)
    → view d chan ≡ some l
    → at d chan c ≤ 1
    → IsValid d
    → (k : Bytes) (c' : ℕ)
    → at (dict_assign d chan (detach_first c l)) k c'
      ≡ (if bytes_eq chan k && (c == c') then 0 else at d k c')
detached d c chan l e once v k c' = elim (Bool-cases (bytes_eq chan k)) [
  | inl same ↦
      let held = λ (q : ℕ). ap (times q) (ap members e ∙ members_some l) in
      rw same (
        ground (
          arith,
          (Puts-assign d chan l (detach_first c l) v e).puts k c',
          same,
          times-detach_first c c' l,
          held c,
          held c',
          once,
          ap (λ x. at d x c') (eq_of_bytes_eq chan k same),
        ))
  | inr other ↦ rw other ((Puts-assign d chan l (detach_first c l) v e).puts k c' ∙ rw other refl)
]

Left-detached :
    (ps : Pubsub) (c : ℕ) (chan : Bytes) (l : List ℕ)
    → PubsubValid ps
    → view ps.channels chan ≡ some l
    → client_in_list l c ≡ true
    → Left ps c chan (leave_list ps c chan (some l))
unfolding leave_list deliveries set_subscribed set_client
Left-detached ps c chan l v e there =
    let held = ap (times c) (ap members e ∙ members_some l) in
    let one : deliveries ps chan c ≡ 1 =
      ground (arith, held, there, client_in_list-times l c, v.once chan c) in
    let left = detached ps.channels c chan l e (v.once chan c) v.channels in
    let now : Bytes → ℕ → ℕ = at (dict_assign ps.channels chan (detach_first c l)) in
    rw there (record {
      valid = record {
        channels = (Puts-assign ps.channels chan l (detach_first c l) v.channels e).valid;
        once = λ k c'. ground (arith, left k c', v.once k c');
        counted = λ c' ks distinct. elim (Bool-cases (c == c')) [
          | inl same ↦
              let e' : c ≡ c' = ground (arith, same) in
              let less =
                counted_leave (λ k. deliveries ps k c') (λ k. now k c') chan _ ks
                  (ap (deliveries ps chan) (sym e') ∙ one) (λ k. ground (arith, left k c', same))
                  distinct (v.counted c') in
              rw same (omega (arith, less, ap (λ x. (ps.clients x).subscribed) e'))
          | inr other ↦
              let kept =
                sum-eq (λ k. deliveries ps k c') (λ k. now k c') ks
                  (λ k. ground (arith, left k c', other)) in
              rw other (omega (arith, kept, v.counted c' ks distinct))
        ];
      };
      left = left;
    })

leave_list-Left :
    (ps : Pubsub) (c : ℕ) (chan : Bytes) (o : Option (List ℕ))
    → PubsubValid ps
    → view ps.channels chan ≡ o
    → let ps' = leave_list ps c chan o in
      Left ps c chan ps'
      × ((ps'.clients c).subscribed ≡ (ps.clients c).subscribed - deliveries ps chan c)
unfolding deliveries leave_list times members set_subscribed set_client
leave_list-Left ps c chan none v e =
    let zero_times = ap (λ o. times c (members o)) e in
    (Left-absent ps c chan v zero_times, omega (arith, zero_times))
leave_list-Left ps c chan (some l) v e =
    let held = ap (λ o. times c (members o)) e in
    let counts = client_in_list-times l c in
    elim (Bool-cases (client_in_list l c)) [
      | inl there ↦ (
        Left-detached ps c chan l v e there,
        rw there (ground (arith, held, there, counts, v.once chan c)),
      )
      | inr absent ↦
          let zero_times : times c (members (view ps.channels chan)) ≡ 0 =
            ground (arith, held, absent, counts) in
          rw absent (Left-absent ps c chan v zero_times, omega (arith, zero_times))
    ]

-- A client that leaves a channel stands in no list of it, the other lists are as before, the count
-- that is returned is one less exactly if the client was there, and the registry stays well formed.
pub pubsub_unsubscribe-Left :
    (ps : Pubsub) (c : ℕ) (chan : Bytes)
    → PubsubValid ps
    → let r = pubsub_unsubscribe ps c chan in
      Left ps c chan r.1 × (r.0 ≡ (ps.clients c).subscribed - deliveries ps chan c)
unfolding pubsub_unsubscribe
pubsub_unsubscribe-Left ps c chan v =
    let at_list = dict_get-view ps.channels chan v.channels in
    leave_list-Left ps c chan (dict_get ps.channels chan) v (sym at_list)
