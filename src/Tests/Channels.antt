-- ===== src/Tests/Channels.antt =====
-- pubsub.c and dynbuf.c on a channel with two clients and on a short buffer.
use miniredis.Common.{
  ℕ, Bytes, [], ◌++◌, ◌+◌, ◌==◌, ◌&&◌, ◌≡◌, refl, arith, bytes, bytes_eq, if◌then◌else◌,
}
use miniredis.Util.Number.{format_zu, digits_of}
use miniredis.Dynbuf.{
  Dynbuf, dynbuf_reserve, double_cap, dynbuf_init, dynbuf_append, Fits, unallocated,
  dynbuf_append-Fits,
}
use miniredis.Pubsub.{
  Pubsub, pubsub_create, pubsub_subscribe, pubsub_unsubscribe, pubsub_unsubscribe_channels,
  pubsub_publish, push_frame,
}
use miniredis.Pubsub.Deliveries.{deliveries, PubsubValid}
use miniredis.Pubsub.Subscriptions.{pubsub_subscribe-Joined}
use miniredis.Pubsub.Channels.{LeftAll, framed, pubsub_unsubscribe_channels-LeftAll}
use miniredis.Pubsub.Publishing.{
  Published, pubsub_publish-Published, pubsub_unsubscribe-twice, pubsub_create-PubsubValid,
}

abbrev news : Bytes
news = bytes "news"

abbrev nobody : Pubsub
nobody = pubsub_create [] (λ c. record { out = []; subscribed = 0 })

nobody-PubsubValid : PubsubValid nobody
nobody-PubsubValid = pubsub_create-PubsubValid [] (λ c. record { out = []; subscribed = 0 })

abbrev first_in : Pubsub
first_in = (pubsub_subscribe nobody 1 news).1

first_in-PubsubValid : PubsubValid first_in
first_in-PubsubValid = (pubsub_subscribe-Joined nobody 1 news nobody-PubsubValid).0

abbrev both_in : Pubsub
both_in = (pubsub_subscribe first_in 2 news).1

both_in-PubsubValid : PubsubValid both_in
both_in-PubsubValid = (pubsub_subscribe-Joined first_in 2 news first_in-PubsubValid).0

pubsub_subscribe-Joined_example :
    let r = pubsub_subscribe first_in 2 news in
    PubsubValid r.1
    × (r.0 ≡ (first_in.clients 2).subscribed + 1)
    × ((k : Bytes) (c' : ℕ)
        → deliveries r.1 k c'
          ≡ (if bytes_eq news k && (2 == c') then 1 else deliveries first_in k c'))
pubsub_subscribe-Joined_example = pubsub_subscribe-Joined first_in 2 news first_in-PubsubValid

pubsub_publish-Published_example :
    Published both_in news (push_frame news (bytes "hi")) (pubsub_publish both_in news (bytes "hi"))
pubsub_publish-Published_example =
    pubsub_publish-Published both_in news (bytes "hi") both_in-PubsubValid

pubsub_unsubscribe_channels-LeftAll_example :
    let r = pubsub_unsubscribe_channels both_in 1 in
    PubsubValid r.1 × LeftAll both_in 1 r.1 × ((q : Bytes) → framed q r.0 ≡ deliveries both_in q 1)
pubsub_unsubscribe_channels-LeftAll_example =
    pubsub_unsubscribe_channels-LeftAll both_in 1 both_in-PubsubValid

pubsub_unsubscribe-twice_example :
    let once = (pubsub_subscribe first_in 2 news).1 in
    let twice = (pubsub_subscribe once 2 news).1 in
    let r = pubsub_unsubscribe twice 2 news in
    (deliveries r.1 news 2 ≡ 0) × (r.0 ≡ (first_in.clients 2).subscribed + 1)
pubsub_unsubscribe-twice_example = pubsub_unsubscribe-twice first_in 2 news first_in-PubsubValid

abbrev hello : Dynbuf
hello = dynbuf_append dynbuf_init (bytes "hello")

hello-Fits : (hello.content ≡ dynbuf_init.content ++ bytes "hello") × Fits hello
unfolding dynbuf_init bytes
hello-Fits = dynbuf_append-Fits dynbuf_init (bytes "hello") (omega arith) (unallocated refl refl)

dynbuf_append-Fits_example :
    ((dynbuf_append hello (bytes "!")).content ≡ hello.content ++ bytes "!")
    × Fits (dynbuf_append hello (bytes "!"))
unfolding dynbuf_append bytes dynbuf_reserve dynbuf_init
dynbuf_append-Fits_example = dynbuf_append-Fits hello (bytes "!") (omega arith) hello-Fits.1

-- A frame, and the capacity of a short buffer.
frame_run : push_frame news (bytes "hi") ≡ bytes "*3\r\n$7\r\nmessage\r\n$4\r\nnews\r\n$2\r\nhi\r\n"
unfolding bytes push_frame format_zu digits_of
frame_run = refl

capacity_run : (dynbuf_append hello (bytes "!")).cap ≡ 64
unfolding dynbuf_append bytes dynbuf_reserve dynbuf_init double_cap
capacity_run = refl
