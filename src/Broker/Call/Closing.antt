-- ===== src/Broker/Call/Closing.antt =====
-- `Close` of internal/broker/call.go crashes every caller that still waits.
use qwer_q.Common.{
  ℕ, true, false, Option, none, some, [], ◌∷◌, if◌then◌else◌, ◌>>=◌, ◌≡◌, refl, sym, ap, ◌∙◌, ◌≢◌,
  inl, inr, Bool-cases,
}
use qwer_q.Common.Strings.{Str, str_eq}
use qwer_q.Common.Dict.{Dict, lookup, AllValues, AllValues-imp}
use qwer_q.Broker.Call.{
  ReplyChannel, open_channel, CallManager, set_channel, begin_call, received, settled, await,
  close_all, ranged, close,
}
use qwer_q.Broker.Call.Replies.{set_channel_self, set_channel_ne}

abbrev closed_channel : ReplyChannel
closed_channel = record { buf = none; closed = true }

-- No channel stands in the map twice.
abbrev pub IsDistinct : Dict ℕ → Type 0
IsDistinct [] = Unit
IsDistinct ((id, c) ∷ pending) = AllValues (λ d. c ≢ d) pending × IsDistinct pending

abbrev pub Open : (ℕ → ReplyChannel) → Dict ℕ → Type 0
Open channels = AllValues (λ c. channels c ≡ open_channel)

-- The channels after `Close`: those of the map are closed and empty, the others as they were.
record Closed (pending : Dict ℕ) (channels : ℕ → ReplyChannel) : Type 0 where
  after : ℕ → ReplyChannel
  all_closed : close_all pending channels ≡ some after
  listed : (id : Str) (c : ℕ) → lookup id pending ≡ some c → after c ≡ closed_channel
  unlisted : (d : ℕ) → AllValues (λ c. c ≢ d) pending → after d ≡ channels d

rest_open :
    (c : ℕ) (pending : Dict ℕ) (channels : ℕ → ReplyChannel)
    → AllValues (λ d. c ≢ d) pending
    → Open channels pending
    → Open (set_channel c closed_channel channels) pending
rest_open c [] channels n o = tt
rest_open c ((j, d) ∷ pending) channels n o =
    (set_channel_ne c d closed_channel channels n.0 ∙ o.0, rest_open c pending channels n.1 o.1)

close_all-Closed :
    (pending : Dict ℕ) (channels : ℕ → ReplyChannel)
    → IsDistinct pending
    → Open channels pending
    → Closed pending channels
unfolding close_all lookup
close_all-Closed [] channels d o = record {
  after = channels;
  all_closed = refl;
  listed = λ id c e. absurd (cc e);
  unlisted = λ d h. refl;
}
close_all-Closed ((j, c) ∷ pending) channels (n, d) (o, os) =
    let channels' = set_channel c closed_channel channels in
    let r = close_all-Closed pending channels' d (rest_open c pending channels n os) in
    record {
      after = r.after;
      all_closed =
          ap
            (λ v.
              if v.closed
              then none
              else close_all pending (set_channel c (record v { closed = true }) channels))
            o
          ∙ r.all_closed;
      listed = λ id c' e. elim (Bool-cases (str_eq j id)) [
        | inl b ↦
            let f : some c ≡ some c' = rw b at e in
            ap r.after (cc f)
            ∙ r.unlisted c (AllValues-imp (λ d. c ≢ d) (λ d. d ≢ c) pending (λ d h g. h (sym g)) n)
            ∙ set_channel_self c closed_channel channels
        | inr b ↦ r.listed id c' (rw b at e)
      ];
      unlisted = λ d h. r.unlisted d h.1 ∙ set_channel_ne c d closed_channel channels h.0;
    }

-- The callers of the map wait on open, empty channels of their own.
pub record IsListed (pending : Dict ℕ) (cm : CallManager) : Type 0 where
  pub here : cm.pending ≡ some pending
  pub distinct : IsDistinct pending
  pub idle : Open cm.channels pending

await-closed : (c : ℕ) (cm : CallManager) → cm.channels c ≡ closed_channel → await false c cm ≡ none
unfolding await received settled
await-closed c cm e = ap (λ ch. settled (received ch)) e

close-Closed :
    (pending : Dict ℕ) (cm : CallManager)
    → IsListed pending cm
    → cm.done ≡ false
    → (r : Closed pending cm.channels)
    → close cm ≡ some (record cm { pending = none; channels = r.after; done = true })
unfolding close ranged
close-Closed pending cm l d r =
    let finish : (ℕ → ReplyChannel) → Option CallManager =
      λ channels. some (record cm { pending = none; channels = channels; done = true }) in
    ap (λ t. if t then none else close_all (ranged cm.pending) cm.channels >>= finish) d
    ∙ ap (λ p. close_all (ranged p) cm.channels >>= finish) l.here
    ∙ ap (λ o. o >>= finish) r.all_closed

-- `Close`, the first time, returns; after it each call that still waits panics, on the nil reply
-- of its closed channel, and each new call panics, on the nil map. Each waiting call has an open,
-- empty channel of its own before.
pub close-crashes :
    (id other : Str) (c : ℕ) (pending : Dict ℕ) (cm : CallManager)
    → IsListed pending cm
    → cm.done ≡ false
    → lookup id pending ≡ some c
    → (cm' : CallManager) × (close cm ≡ some cm')
      × (await false c cm' ≡ none)
      × (begin_call other cm' ≡ none)
unfolding close begin_call
close-crashes id other c pending cm l d e =
    let r = close_all-Closed pending cm.channels l.distinct l.idle in
    let cm' = record cm { pending = none; channels = r.after; done = true } in
    (cm', close-Closed pending cm l d r, await-closed c cm' (r.listed id c e), refl)
