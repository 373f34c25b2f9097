-- ===== src/Pubsub.antt =====
-- pubsub.c: the registry of channels. A client is a number; `clients` is what the pointers in the
-- lists lead to.
pub mod Deliveries
pub mod Subscriptions
pub mod Leaving
pub mod Channels
pub mod Disconnect
pub mod Publishing
use miniredis.Common.{
  ℕ, zero, suc, ◌+◌, ◌-◌, Bytes, Bool, true, false, ◌||◌, Option, none, some, List, [], ◌∷◌, ◌++◌,
  if◌then◌else◌, ◌==◌, bytes, length,
}
use miniredis.Util.Number.{format_zu}
use miniredis.Dict.{
  Entry, Dict, dict_create, dict_get, dict_set, dict_delete, dict_assign, entries_of,
}
use miniredis.Server.Reply.{crlf}

-- The fields of a client that this file uses.
pub record Subscriber : Type 0 where
  pub out : Bytes
  pub subscribed : ℕ

pub record Pubsub : Type 0 where
  pub channels : Dict (List ℕ)
  pub clients : ℕ → Subscriber

unfoldable pub pubsub_create : Bytes → (ℕ → Subscriber) → Pubsub
pubsub_create seed clients = record { channels = dict_create seed; clients = clients }

-- A write to a field of one client.
unfoldable pub set_client : (ℕ → Subscriber) → ℕ → Subscriber → ℕ → Subscriber
set_client clients c s c' = if c == c' then s else clients c'

unfoldable pub set_subscribed : (ℕ → Subscriber) → ℕ → ℕ → ℕ → Subscriber
set_subscribed clients c n = set_client clients c (record (clients c) { subscribed = n })

unfoldable pub client_in_list : List ℕ → ℕ → Bool
client_in_list [] c = false
client_in_list (x ∷ l) c = (x == c) || client_in_list l c

-- `list_create` and `dict_set` for a channel without a list.
unfoldable pub channel_list : Dict (List ℕ) → Bytes → Option (List ℕ) → List ℕ × Dict (List ℕ)
channel_list d chan (some l) = (l, d)
channel_list d chan none = ([], (dict_set d chan []).1)

unfoldable pub join_list : ℕ → Bytes → List ℕ × Dict (List ℕ) → Dict (List ℕ)
join_list c chan (l, d) = if client_in_list l c then d else dict_assign d chan (l ++ c ∷ [])

unfoldable pub pubsub_subscribe : Pubsub → ℕ → Bytes → ℕ × Pubsub
pubsub_subscribe ps c chan =
    let count = (ps.clients c).subscribed + 1 in
    (
      count,
      record {
        channels = join_list c chan (channel_list ps.channels chan (dict_get ps.channels chan));
        clients = set_subscribed ps.clients c count;
      },
    )

-- The first node of the client is detached.
unfoldable pub detach_first : ℕ → List ℕ → List ℕ
detach_first c [] = []
detach_first c (x ∷ l) = if x == c then l else x ∷ detach_first c l

unfoldable pub leave_list : Pubsub → ℕ → Bytes → Option (List ℕ) → Pubsub
leave_list ps c chan none = ps
leave_list ps c chan (some l) =
    if client_in_list l c
    then record {
      channels = dict_assign ps.channels chan (detach_first c l);
      clients = set_subscribed ps.clients c ((ps.clients c).subscribed - 1);
    }
    else ps

unfoldable pub pubsub_unsubscribe : Pubsub → ℕ → Bytes → ℕ × Pubsub
pubsub_unsubscribe ps c chan =
    let left = leave_list ps c chan (dict_get ps.channels chan) in
    ((left.clients c).subscribed, left)

-- Every node of the client is detached.
unfoldable pub detach_all : ℕ → List ℕ → List ℕ
detach_all c [] = []
detach_all c (x ∷ l) = if x == c then detach_all c l else x ∷ detach_all c l

unfoldable pub leave_all : ℕ → List (Entry (List ℕ)) → Dict (List ℕ) → Dict (List ℕ)
leave_all c [] d = d
leave_all c (e ∷ es) d = leave_all c es (dict_assign d e.key (detach_all c e.val))

unfoldable pub pubsub_unsubscribe_all : Pubsub → ℕ → Pubsub
pubsub_unsubscribe_all ps c = if (ps.clients c).subscribed == 0 then ps else record {
  channels = leave_all c (entries_of ps.channels.table) ps.channels;
  clients = set_subscribed ps.clients c 0;
}

cons_frame : Bytes → ℕ → List (Bytes × ℕ) × Pubsub → List (Bytes × ℕ) × Pubsub
cons_frame chan count (frames, ps) = ((chan, count) ∷ frames, ps)

-- The calls of `frame`, and the registry. A list that the iteration meets was not changed before.
unfoldable pub leave_each : ℕ → List (Entry (List ℕ)) → Pubsub → List (Bytes × ℕ) × Pubsub
unfolding cons_frame
leave_each c [] ps = ([], ps)
leave_each c (e ∷ es) ps =
    let left = pubsub_unsubscribe ps c e.key in
    let after = leave_each c es left.1 in
    let same = leave_each c es ps in
    if client_in_list e.val c then cons_frame e.key left.0 after else same

unfoldable pub pubsub_unsubscribe_channels : Pubsub → ℕ → List (Bytes × ℕ) × Pubsub
pubsub_unsubscribe_channels ps c =
    if (ps.clients c).subscribed == 0
    then ([], ps)
    else leave_each c (entries_of ps.channels.table) ps

unfoldable pub push_frame : Bytes → Bytes → Bytes
push_frame chan msg =
    bytes "*3"
    ++ (crlf
        ++ (bytes "$7"
            ++ (crlf
                ++ (bytes "message"
                    ++ (crlf
                        ++ (b'$'
                            ∷ (format_zu (length chan)
                                ++ (crlf
                                    ++ (chan
                                        ++ (crlf
                                            ++ (b'$'
                                                ∷ (format_zu (length msg)
                                                    ++ (crlf ++ (msg ++ crlf))))))))))))))

unfoldable pub push_all : Bytes → List ℕ → (ℕ → Subscriber) → ℕ → Subscriber
push_all frame [] clients = clients
push_all frame (c ∷ l) clients =
    push_all frame l (set_client clients c (record (clients c) { out = (clients c).out ++ frame }))

unfoldable pub publish_list : Pubsub → Bytes → Bytes → Option (List ℕ) → ℕ × Pubsub
publish_list ps chan msg none = (0, ps)
publish_list ps chan msg (some []) = (0, record ps { channels = (dict_delete ps.channels chan).1 })
publish_list ps chan msg (some (c ∷ l)) =
    (length (c ∷ l), record ps { clients = push_all (push_frame chan msg) (c ∷ l) ps.clients })

unfoldable pub pubsub_publish : Pubsub → Bytes → Bytes → ℕ × Pubsub
pubsub_publish ps chan msg = publish_list ps chan msg (dict_get ps.channels chan)
