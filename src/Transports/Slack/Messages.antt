-- ===== src/Transports/Slack/Messages.antt =====
-- src/transports/slack.rs: what a frame that is taken for a message holds.
use irc2torrent.Prelude.{
  ◌≡◌, arith, ap, refl, Bool, true, false, not, ◌&&◌, ◌||◌, Text, codes, Option, none, some,
  if◌then◌else◌, subst, text_eq, text_eq_iff,
}
use irc2torrent.Transports.Json.{JsonLib, and_then, text_at}
use irc2torrent.Transports.Slack.{
  Frame, message, ack_only, disconnect, ignore_frame, is_plain_message, in_our_channel,
  message_frame, classify_event, classify_envelope, ack_other, classify_type, classify_value,
  classify, is_text, is_absent,
}

module _ (json : JsonLib) where
  -- A frame that holds a message by a user, plain and in the channel
  abbrev pub HasPlainMessage : Text → Text → Text → Text → Text → Type 0
  HasPlainMessage raw channel_id envelope_id user text =
      (value event : json.Value) × (json.from_str raw ≡ some value)
      × (text_at json (codes "type") value ≡ some (codes "events_api"))
      × (text_at json (codes "envelope_id") value ≡ some envelope_id)
      × (and_then (json.field (codes "payload") value) (json.field (codes "event")) ≡ some event)
      × (text_at json (codes "type") event ≡ some (codes "message"))
      × (json.field (codes "subtype") event ≡ none)
      × (json.field (codes "bot_id") event ≡ none)
      × (text_at json (codes "channel") event ≡ some channel_id)
      × (text_at json (codes "user") event ≡ some user)
      × (text_at json (codes "text") event ≡ some text)

  is_text-some : (o : Option Text) (t : Text) → is_text json o t ≡ true → o ≡ some t
  is_text-some none t h = cc
  is_text-some (some u) t h = ap (λ v. some v) ((text_eq_iff u t).0 h)

  some-is_text : (t : Text) → is_text json (some t) t ≡ true
  some-is_text t = (text_eq_iff t t).1 refl

  is_absent-none : {A : Type 0} (o : Option A) → is_absent json o ≡ true → o ≡ none
  is_absent-none none h = refl
  is_absent-none (some a) h = cc

  all_three : (a b c : Bool) → (a && b && c) ≡ true → (a ≡ true) × (b ≡ true) × (c ≡ true)
  all_three true true true h = (refl, refl, refl)
  all_three true true false h = cc
  all_three true false c h = absurd (ground arith)
  all_three false b c h = absurd (ground arith)

  plain-message :
      (event : json.Value)
      → is_plain_message json event ≡ true
      → (text_at json (codes "type") event ≡ some (codes "message"))
        × (json.field (codes "subtype") event ≡ none)
        × (json.field (codes "bot_id") event ≡ none)
  unfolding is_plain_message
  plain-message event h =
      let (kind, subtype, bot) = all_three _ _ _ h in
      (
        is_text-some (text_at json (codes "type") event) (codes "message") kind,
        is_absent-none (json.field (codes "subtype") event) subtype,
        is_absent-none (json.field (codes "bot_id") event) bot,
      )

  channel-message :
      (channel_id : Text) (event : json.Value)
      → in_our_channel json channel_id event ≡ true
      → text_at json (codes "channel") event ≡ some channel_id
  unfolding in_our_channel
  channel-message channel_id event h =
      is_text-some (text_at json (codes "channel") event) channel_id h

  pub message-classify :
      (raw channel_id envelope_id user text : Text)
      → HasPlainMessage raw channel_id envelope_id user text
      → classify json raw channel_id ≡ message envelope_id user text
  unfolding classify is_plain_message in_our_channel
  message-classify raw channel_id envelope_id user text
        (value, event, hv, ht, hi, he, kind, subtype, bot, channel, hu, hx) =
      let same = some-is_text channel_id in
      rw (hv, ht, hi, he, kind, subtype, bot, channel, same, hu, hx) refl

  module _ (channel_id envelope_id user text : Text) where
    fields-message :
        (id : Text) (u t : Option Text)
        → message_frame json id u t ≡ message envelope_id user text
        → (id ≡ envelope_id) × (u ≡ some user) × (t ≡ some text)
    fields-message id (some u) (some t) h = (cc, cc, cc)
    fields-message id (some u) none h = cc
    fields-message id none t h = cc

    kept-message :
        (plain inside : Bool) (id : Text) (frame : Frame)
        → (if not plain || not inside then ack_only id else frame) ≡ message envelope_id user text
        → (plain ≡ true) × (inside ≡ true) × (frame ≡ message envelope_id user text)
    kept-message true true id frame h = (refl, refl, h)
    kept-message true false id frame h = cc
    kept-message false inside id frame h = cc

    events-message :
        (closing hello events : Bool) (frame : Frame) (id : Option Text)
        → (if closing
            then disconnect
            else if hello
            then ignore_frame
            else if events
            then frame
            else ack_other json id)
          ≡ message envelope_id user text
        → (events ≡ true) × (frame ≡ message envelope_id user text)
    events-message true hello events frame id h = cc
    events-message false true events frame id h = cc
    events-message false false true frame id h = (refl, h)
    events-message false false false frame none h = cc
    events-message false false false frame (some id) h = cc

    event-message :
        (raw : Text) (value : json.Value) (id : Text) (event : Option json.Value)
        → json.from_str raw ≡ some value
        → text_at json (codes "type") value ≡ some (codes "events_api")
        → text_at json (codes "envelope_id") value ≡ some id
        → and_then (json.field (codes "payload") value) (json.field (codes "event")) ≡ event
        → classify_event json channel_id id event ≡ message envelope_id user text
        → HasPlainMessage raw channel_id envelope_id user text
    event-message raw value id none hv ht hi he h = absurd cc
    event-message raw value id (some event) hv ht hi he h =
        let (plain, inside, framed) =
          kept-message (is_plain_message json event) (in_our_channel json channel_id event) id _
            h in
        let (same, hu, hx) =
          fields-message id (text_at json (codes "user") event) (text_at json (codes "text") event)
            framed in
        (
          value,
          event,
          hv,
          ht,
          subst (λ i. text_at json (codes "envelope_id") value ≡ some i) same hi,
          he,
          (plain-message event plain).0,
          (plain-message event plain).1,
          (plain-message event plain).2,
          channel-message channel_id event inside,
          hu,
          hx,
        )

    envelope-message :
        (raw : Text) (value : json.Value) (id : Option Text)
        → json.from_str raw ≡ some value
        → text_at json (codes "type") value ≡ some (codes "events_api")
        → text_at json (codes "envelope_id") value ≡ id
        → classify_envelope json channel_id value id ≡ message envelope_id user text
        → HasPlainMessage raw channel_id envelope_id user text
    envelope-message raw value none hv ht hi h = absurd cc
    envelope-message raw value (some id) hv ht hi h =
        event-message raw value id
          (and_then (json.field (codes "payload") value) (json.field (codes "event"))) hv ht hi refl
          h

    type-message :
        (raw : Text) (value : json.Value) (kind : Option Text)
        → json.from_str raw ≡ some value
        → text_at json (codes "type") value ≡ kind
        → classify_type json channel_id value kind ≡ message envelope_id user text
        → HasPlainMessage raw channel_id envelope_id user text
    type-message raw value none hv ht h = absurd cc
    type-message raw value (some kind) hv ht h =
        let (events, framed) =
          events-message (text_eq kind (codes "disconnect")) (text_eq kind (codes "hello"))
            (text_eq kind (codes "events_api")) _ (text_at json (codes "envelope_id") value) h in
        envelope-message raw value (text_at json (codes "envelope_id") value) hv
          (subst (λ k. text_at json (codes "type") value ≡ some k)
            ((text_eq_iff kind (codes "events_api")).0 events) ht)
          refl framed

    value-message :
        (raw : Text) (value : Option json.Value)
        → json.from_str raw ≡ value
        → classify_value json channel_id value ≡ message envelope_id user text
        → HasPlainMessage raw channel_id envelope_id user text
    value-message raw none hv h = absurd cc
    value-message raw (some value) hv h =
        type-message raw value (text_at json (codes "type") value) hv refl h

  pub message-HasPlainMessage :
      (raw channel_id envelope_id user text : Text)
      → classify json raw channel_id ≡ message envelope_id user text
      → HasPlainMessage raw channel_id envelope_id user text
  unfolding classify
  message-HasPlainMessage raw channel_id envelope_id user text h =
      value-message channel_id envelope_id user text raw (json.from_str raw) refl h
