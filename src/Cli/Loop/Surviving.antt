-- ===== src/Cli/Loop/Surviving.antt =====
-- src/cli.rs: what every line at the prompt keeps, whatever it says.
use yuv_lightning_ldk_sample.Payments
use yuv_lightning_ldk_sample.Prelude.{
  ℕ, [], ◌∷◌, Bool, Option, List, Bool-cases, some, leb, none, length, inl, inr, ◌+◌,
}
use yuv_lightning_ldk_sample.Node.{Ldk, World, Call, peer_data_fname}
use yuv_lightning_ldk_sample.Payments.{PaymentApi, Currency, Network, save_inbound, get_invoice}
use yuv_lightning_ldk_sample.Peers.{
  PeerApi, do_connect_peer, connect_peer_if_necessary, do_disconnect_peer, persist_channel_peer,
  Connection, Wakeup, PeerInfo, connected, is_listed, peer_error, has_channel_with, not_connected,
  peer_info, connecting,
}
use yuv_lightning_ldk_sample.Cli.Words.{CliApi}
use yuv_lightning_ldk_sample.Payments.Ops.{
  Survives, run_op, run_op-Survives, op_send_payment, op_keysend, op_get_invoice,
}
use yuv_lightning_ldk_sample.Cli.Commands.{open_when, CommandAnswers}
use yuv_lightning_ldk_sample.Cli.ChannelCommands.{
  send_onion_with, run_disconnectpeer, close_with, update_with, send_onion_to, save_peer,
  run_signmessage, disconnect_from, connect_to, run_connectpeer, force_close_with, initiate_update,
  initiate_close, initiate_force_close,
}
use yuv_lightning_ldk_sample.Prelude.Text.{Bytes, trim, codes}
use yuv_lightning_ldk_sample.Prelude.Assoc.{insert}
use yuv_lightning_ldk_sample.Event.{ChannelDetails}

module _ {L : Ldk} (api : PaymentApi L) where
  -- The changes of the payments, and those of the peer file and of the configuration besides.
  pub record SurvivesLines (P : World L → Type 0) : Type 0 where
    pub payments : Survives api P
    pub saves_peers :
        (text : Bytes) (w : World L)
        → P w
        → P (record w { store = insert peer_data_fname text w.store })
    pub configures :
        (config : L.UserConfig) (w : World L) → P w → P (record w { default_config = config })

  module _ (peer : PeerApi L) (cli : CliApi L) (P : World L → Type 0) (s : SurvivesLines P) where
    pub sent-Survives :
        (is_ok : Call L → Bool) (invoice : L.Invoice) (amt : Option ℕ) (w : World L)
        → P w
        → P (Payments.send_payment api is_ok invoice amt w).0
    sent-Survives is_ok invoice amt w d =
        unfold run_op in run_op-Survives api P s.payments (op_send_payment is_ok invoice amt) w d

    pub keysent-Survives :
        (is_ok : Call L → Bool) (preimage : Bytes) (payee : L.PublicKey) (amt : ℕ) (w : World L)
        → P w
        → P (Payments.keysend api is_ok preimage payee amt w).0
    keysent-Survives is_ok preimage payee amt w d =
        unfold run_op in run_op-Survives api P s.payments (op_keysend is_ok preimage payee amt) w d

    pub invoiced-Survives :
        (create : Currency → ℕ → ℕ → Option (L.Pixel) → Option (L.Invoice)) (amt : ℕ)
        (network : Network) (expiry : ℕ) (pixel : Option (L.Pixel)) (w : World L)
        → P w
        → P (save_inbound api (get_invoice api create amt network expiry pixel w))
    invoiced-Survives create amt network expiry pixel w d =
        unfold run_op in
        run_op-Survives api P s.payments (op_get_invoice create amt network expiry pixel) w d

    do_connect_peer-Survives :
        (key : L.PublicKey) (addr : L.SocketAddr) (attempt : Option (List (Wakeup L))) (w : World L)
        → P w
        → P (do_connect_peer peer key addr attempt w).0
    unfolding do_connect_peer
    do_connect_peer-Survives key addr none w d = s.payments.calls _ w d
    do_connect_peer-Survives key addr (some wakeups) w d = s.payments.calls _ w d

    pub connect_peer-Survives :
        (key : L.PublicKey) (addr : L.SocketAddr) (peers : List (L.PublicKey))
        (attempt : Option (List (Wakeup L))) (w : World L)
        → P w
        → P (connect_peer_if_necessary peer key addr peers attempt w).0
    unfolding connect_peer_if_necessary
    connect_peer-Survives key addr peers attempt w d =
        elim (Bool-cases (is_listed peer key peers)) [
          | inl there ↦ rw there d
          | inr new ↦ rw new (do_connect_peer-Survives key addr attempt w d)
        ]

    save_peer-Survives :
        (info : Bytes) (r : World L × Connection) → P r.0 → P (save_peer peer cli info r).0
    unfolding save_peer persist_channel_peer
    save_peer-Survives info (w, connected) d = s.saves_peers _ w d
    save_peer-Survives info (w, not_connected) d = s.saves_peers _ w d
    save_peer-Survives info (w, connecting) d = d

    connect_to-Survives :
        (a : CommandAnswers L) (info : Bytes) (p : PeerInfo L) (w : World L)
        → P w
        → P (connect_to peer cli a info p w).0
    unfolding connect_to
    connect_to-Survives a info (peer_error e) w d = d
    connect_to-Survives a info (peer_info key addr) w d =
        save_peer-Survives info _ (connect_peer-Survives key addr a.peers a.attempt w d)

    pub connectpeer-Survives :
        (a : CommandAnswers L) (words : List Bytes) (w : World L)
        → P w
        → P (run_connectpeer peer cli a words w).0
    unfolding run_connectpeer
    connectpeer-Survives a [] w d = d
    connectpeer-Survives a (info ∷ words) w d = connect_to-Survives a info _ w d

    do_disconnect_peer-Survives :
        (key : L.PublicKey) (channels : List (ChannelDetails L)) (peers : List (L.PublicKey))
        (w : World L)
        → P w
        → P (do_disconnect_peer peer key channels peers w).0
    unfolding do_disconnect_peer
    do_disconnect_peer-Survives key channels peers w d =
        elim (Bool-cases (has_channel_with peer key channels)) [
          | inl open_channel ↦ rw open_channel d
          | inr none_open ↦ elim (Bool-cases (is_listed peer key peers)) [
            | inl there ↦ rw (none_open, there) (s.payments.calls _ w d)
            | inr away ↦ rw (none_open, away) d
          ]
        ]

    disconnect_from-Survives :
        (a : CommandAnswers L) (key : Option (L.PublicKey)) (w : World L)
        → P w
        → P (disconnect_from peer cli a key w).0
    unfolding disconnect_from
    disconnect_from-Survives a none w d = d
    disconnect_from-Survives a (some key) w d =
        do_disconnect_peer-Survives key a.channels a.peers w d

    pub disconnectpeer-Survives :
        (a : CommandAnswers L) (words : List Bytes) (w : World L)
        → P w
        → P (run_disconnectpeer peer cli a words w).0
    unfolding run_disconnectpeer
    disconnectpeer-Survives a [] w d = d
    disconnectpeer-Survives a (key ∷ words) w d = disconnect_from-Survives a _ w d

    pub close_with-Survives :
        (o : Option (Bytes × L.PublicKey × List Bytes)) (w : World L)
        → P w
        → P (close_with peer cli o w).0 × P (force_close_with peer cli o w).0
    unfolding close_with force_close_with initiate_close initiate_force_close
    close_with-Survives none w d = (d, d)
    close_with-Survives (some (id, key, words)) w d =
        (s.payments.calls _ w d, s.payments.calls _ w d)

    pub update_with-Survives :
        (o : Option (Bytes × L.PublicKey × Option ℕ × Option ℕ)) (w : World L)
        → P w
        → P (update_with peer cli o w).0
    unfolding update_with initiate_update
    update_with-Survives none w d = d
    update_with-Survives (some (id, key, msat, luma)) w d = s.payments.calls _ w d

    send_onion_to-Survives :
        (tlv_type : ℕ) (message : Bytes) (o : Option (L.PublicKey)) (w : World L)
        → P w
        → P (send_onion_to peer cli tlv_type message o w).0
    unfolding send_onion_to
    send_onion_to-Survives tlv_type message none w d = d
    send_onion_to-Survives tlv_type message (some key) w d = s.payments.calls _ w d

    pub send_onion_with-Survives :
        (o : Option (ℕ × Bytes × List (L.PublicKey))) (w : World L)
        → P w
        → P (send_onion_with peer cli o w).0
    unfolding send_onion_with
    send_onion_with-Survives none w d = d
    send_onion_with-Survives (some (tlv_type, message, keys)) w d =
        send_onion_to-Survives tlv_type message _ w d

    pub signmessage-Survives :
        (line : Bytes) (w : World L) → P w → P (run_signmessage peer cli line w).0
    unfolding run_signmessage
    signmessage-Survives line w d =
        elim (Bool-cases (leb (length (trim line)) (length (codes "signmessage") + 1))) [
          | inl short ↦ rw short d
          | inr long ↦ rw long (s.payments.calls _ w d)
        ]

    pub open_when-Survives :
        (c : Connection) (open_channel : World L → World L) (w : World L)
        → P w
        → P (open_channel w)
        → P (open_when api peer cli c open_channel w).0
    unfolding open_when
    open_when-Survives connected open_channel w d e = e
    open_when-Survives not_connected open_channel w d e = d
    open_when-Survives connecting open_channel w d e = d
