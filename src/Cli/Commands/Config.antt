-- ===== src/Cli/Commands/Config.antt =====
-- The command `configchannel` on a line of which a part is wrong.
use yuv_lightning_ldk_sample.Prelude.{
  List, ◌≡◌, Option, some, ◌++◌, ap, none, ◌∷◌, some_eq, [], ◌>>=◌, ◌∙◌, Option-cases, refl, inl,
  inr,
}
use yuv_lightning_ldk_sample.Node.{Ldk}
use yuv_lightning_ldk_sample.Payments.{PaymentApi}
use yuv_lightning_ldk_sample.Peers.{PeerApi}
use yuv_lightning_ldk_sample.Cli.Words.{CliApi}
use yuv_lightning_ldk_sample.Cli.Commands.{config_channel, Bytes, config_param}

module _ {L : Ldk} (api : PaymentApi L) (peer : PeerApi L) (cli : CliApi L) where
  -- the words of parameters with their values
  abbrev pub words_of : List (Bytes × Bytes) → List Bytes
  words_of [] = []
  words_of ((word, value) ∷ params) = word ∷ value ∷ words_of params

  -- all the parameters, one after the other, if none is wrong
  abbrev pub configured : List (Bytes × Bytes) → L.UserConfig → Option (L.UserConfig)
  configured [] config = some config
  configured ((word, value) ∷ params) config =
      config_param api peer cli word value config >>= configured params

  config_channel-words_of :
      (params : List (Bytes × Bytes)) (rest : List Bytes) (config after : L.UserConfig)
      → configured params config ≡ some after
      → config_channel api peer cli (words_of params ++ rest) config
        ≡ config_channel api peer cli rest after
  unfolding config_channel
  config_channel-words_of [] rest config after e = ap (config_channel api peer cli rest) (some_eq e)
  config_channel-words_of ((word, value) ∷ params) rest config after e =
      elim (Option-cases (config_param api peer cli word value config)) [
        | inl wrong ↦ cc (rw wrong at e)
        | inr (next, right) ↦
            rw right (config_channel-words_of params rest next after (rw right at e))
      ]

  -- `configchannel` is not all or nothing: the parameters before the first wrong one, with their
  -- values, have changed the configuration, and what follows it has no effect.
  pub config_channel_stops :
      (params : List (Bytes × Bytes)) (word value : Bytes) (rest : List Bytes)
      (config after : L.UserConfig)
      → configured params config ≡ some after
      → config_param api peer cli word value after ≡ none
      → config_channel api peer cli (words_of params ++ word ∷ value ∷ rest) config ≡ after
  unfolding config_channel
  config_channel_stops params word value rest config after e wrong =
      config_channel-words_of params (word ∷ value ∷ rest) config after e ∙ rw wrong refl
