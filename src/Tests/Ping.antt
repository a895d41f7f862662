-- ===== src/Tests/Ping.antt =====
-- A message through the endpoints of src/usbip.rs.
use f2ido.Prelude.{◌≡◌, ◌+◌, refl, arith, List, [], ◌∷◌, map, length}
use f2ido.Outcome.{ok, ◌>>=◌}
use f2ido.Ctaphid.Types.{Bytes, Channel, init, ctaphid_ping}
use f2ido.Ctaphid.Reply.Frames.{frames, first_frame}
use f2ido.Ctaphid.Channel.Reassembly.{report}
use f2ido.Ctaphid.Parser.Feeding.{served}
use f2ido.Usbip.Device.Ping.{sends, reads, ping_comes_back}
use f2ido.Usbip.Stream.{Header}
use f2ido.Usbip.Device.Waking.{submit}
use f2ido.Tests.{env, long_message}

-- Two idle channels.
abbrev channels : List Channel
channels = record { cid = 0; state = init } ∷ record { cid = 1; state = init } ∷ []

abbrev packets : List Bytes
packets = map report (frames 1 ctaphid_ping long_message)

ping_comes_back_example :
    (sends packets >>= λ u. reads env (length packets)) (served [] [] channels 0)
    ≡ ok packets (served [] [] channels 0)
ping_comes_back_example =
    ping_comes_back env 1 channels 0 long_message (omega arith) refl (refl, (refl, tt))
      (omega arith)

abbrev ping : Bytes
ping = report (first_frame 1 (ctaphid_ping + 128) (7 ∷ 8 ∷ []))

abbrev sent : Header
sent = submit 0 2 5 1 []

abbrev poll : Header
poll = submit 1 1 4 1 []
