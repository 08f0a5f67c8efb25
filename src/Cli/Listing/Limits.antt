-- ===== src/Cli/Listing/Limits.antt =====
-- src/cli.rs: when `listchannels` panics.
use yuv_lightning_ldk_sample.Prelude.{
  is_return, ℕ, Option, Bool, Outcome, is_some, List, returns, ◌&&◌, true, ◌∷◌, [], ◌≡◌, panics,
  ◌∙◌, refl, some, none,
}
use yuv_lightning_ldk_sample.Node.{Ldk}
use yuv_lightning_ldk_sample.Event.{ChannelDetails}
use yuv_lightning_ldk_sample.Cli.Listing.{
  PrintApi, Bytes, limit_rows, around, both, channel_rows, channels_rows, list_channels, codes,
}

-- the four limits of a channel that are unwrapped
abbrev pub all_some : Option ℕ → Option ℕ → Option ℕ → Option ℕ → Bool
all_some a b c d = is_some a && (is_some b && (is_some c && is_some d))

unfoldable pub has_limits : {L : Ldk} → ChannelDetails L → Bool
has_limits chan =
    all_some chan.inbound_htlc_minimum_msat chan.inbound_htlc_maximum_msat
      chan.outbound_htlc_minimum_msat chan.outbound_htlc_maximum_msat

unfoldable pub every {ℓ} : {A : Type ℓ} → (A → Bool) → List A → Bool
every test [] = true
every test (x ∷ xs) = test x && every test xs

module _ {L : Ldk} (print : PrintApi L) (alias : L.PublicKey → Option Bytes) where
  limit_rows-some :
      (a b c d : Option ℕ) (dust : ℕ) → is_return (limit_rows print a b c d dust) ≡ all_some a b c d
  unfolding limit_rows
  limit_rows-some none b c d dust = refl
  limit_rows-some (some a) none c d dust = refl
  limit_rows-some (some a) (some b) none d dust = refl
  limit_rows-some (some a) (some b) (some c) none dust = refl
  limit_rows-some (some a) (some b) (some c) (some d) dust = refl

  is_return-around :
      (s : Bytes) (o : Outcome Bytes) (t : Bytes) → is_return (around print s o t) ≡ is_return o
  is_return-around s (returns x) t = refl
  is_return-around s panics t = refl

  is_return-both : (o q : Outcome Bytes) → is_return (both print o q) ≡ (is_return o && is_return q)
  is_return-both (returns x) (returns y) = refl
  is_return-both (returns x) panics = refl
  is_return-both panics q = refl

  channel_rows-limits :
      (chan : ChannelDetails L) → is_return (channel_rows print alias chan) ≡ has_limits chan
  unfolding channel_rows has_limits
  channel_rows-limits chan = is_return-around _ _ _ ∙ limit_rows-some _ _ _ _ _

  channels_rows-limits :
      (chans : List (ChannelDetails L))
      → is_return (channels_rows print alias chans) ≡ every has_limits chans
  unfolding channels_rows every
  channels_rows-limits [] = refl
  channels_rows-limits (chan ∷ chans) =
      is_return-both _ _ ∙ rw (channel_rows-limits chan, channels_rows-limits chans) refl

  pub list_channels-limits :
      (chans : List (ChannelDetails L))
      → is_return (list_channels print alias chans) ≡ every has_limits chans
  unfolding list_channels every
  list_channels-limits [] = refl
  list_channels-limits (chan ∷ chans) =
      is_return-around (codes "\r[") _ (codes "\r\n]\n") ∙ channels_rows-limits (chan ∷ chans)
