-- ===== src/Inbound/Keys.antt =====
-- The keys by which application/use_cases/process_inbound_message.py recognises a message.
use Prim.Native.Char.{Char, code}
use text.Mathlib.TextLemmas.{nil-append, cons-append}
use edge_copilot_backend.Prelude.{
  String, false, ◌<>◌, Option, none, some, ◌≡◌, refl, ◌∙◌, ap, arith, eqb, if◌then◌else◌,
}
use edge_copilot_backend.Prelude.Text.{drop_prefix, drop_prefix-append}
use edge_copilot_backend.Identity.{Channel, channel_value, channel_enum}
use edge_copilot_backend.Inbound.{ProcessInboundMessageRequest, dedup_key}

-- No character of the text is a colon.
abbrev pub HasNoColon : String → Type 0
HasNoColon String.[] = Unit
HasNoColon (String.◌∷◌ c rest) = (eqb (code c) b':' ≡ false) × HasNoColon rest

-- The text up to the first colon, and the text after it.
abbrev cons_first : Char → Option (String × String) → Option (String × String)
cons_first c none = none
cons_first c (some (first, rest)) = some (String.◌∷◌ c first, rest)

split_at_colon : String → Option (String × String)
split_at_colon String.[] = none
split_at_colon (String.◌∷◌ c rest) =
    let split = cons_first c (split_at_colon rest) in
    if eqb (code c) b':' then some (String.[], rest) else split

colon-append : (r : String) → ":" <> r ≡ String.◌∷◌ ":" r
colon-append r = cons-append ":" String.[] r ∙ ap (String.◌∷◌ ":") (nil-append r)

split_at_colon-append :
    (p r : String) → HasNoColon p → split_at_colon (p <> (":" <> r)) ≡ some (p, r)
unfolding split_at_colon
split_at_colon-append String.[] r h = ap split_at_colon (nil-append (":" <> r) ∙ colon-append r)
split_at_colon-append (String.◌∷◌ c p) r (no', h) =
    rw (cons-append c p (":" <> r), no', split_at_colon-append p r h) refl

-- The parts of a key: what follows "message:", cut at the first two colons.
abbrev provider_and_id : Channel → Option (String × String) → Option (Channel × String × String)
provider_and_id channel none = none
provider_and_id channel (some (provider, id)) = some (channel, provider, id)

abbrev with_channel : Option Channel → String → Option (Channel × String × String)
unfolding split_at_colon
with_channel none rest = none
with_channel (some channel) rest = provider_and_id channel (split_at_colon rest)

abbrev channel_and_rest : Option (String × String) → Option (Channel × String × String)
unfolding split_at_colon
channel_and_rest none = none
channel_and_rest (some (channel, rest)) = with_channel (channel_enum.of_value channel) rest

abbrev after_prefix : Option String → Option (Channel × String × String)
unfolding split_at_colon
after_prefix none = none
after_prefix (some rest) = channel_and_rest (split_at_colon rest)

unfoldable pub parse_key : String → Option (Channel × String × String)
unfolding split_at_colon
parse_key key = after_prefix (drop_prefix "message:" key)

channel-HasNoColon : (channel : Channel) → HasNoColon (channel_value channel)
channel-HasNoColon Channel.whatsapp = ground arith
channel-HasNoColon _ = ground arith

-- Where the name of the provider has no colon, its channel, its provider and the provider's message
-- id can be read off the key of a request: requests with one key have these three in common.
pub parse_key-dedup_key :
    (request : ProcessInboundMessageRequest)
    → HasNoColon request.provider
    → parse_key (dedup_key request)
      ≡ some (request.channel, request.provider, request.provider_message_id)
unfolding parse_key
parse_key-dedup_key request h =
    let rest = request.provider <> (":" <> request.provider_message_id) in
    let key : String = channel_value request.channel <> (":" <> rest) in
    ap after_prefix (drop_prefix-append "message:" key)
    ∙ ap channel_and_rest (
        split_at_colon-append (channel_value request.channel) rest
          (channel-HasNoColon request.channel))
    ∙ ap (λ o. with_channel o rest) (channel_enum.of_value-value request.channel)
    ∙ ap (provider_and_id request.channel)
        (split_at_colon-append request.provider request.provider_message_id h)
