-- ===== src/Link/Handshake/Unset.antt =====
-- What the greeting of `run_client` (VideoServer/src/client.c) does when its variables, which are not
-- set at the start, hold an INIT_ACK of the server.
use fagprojekt.Base.{◌≡◌, refl, true, ok, none}
use fagprojekt.Connection.{SockAddr, timed_out, recv_data_timeout}
use fagprojekt.Server.State.{ConnectionStatus}
use fagprojekt.Client.{accepted}
use fagprojekt.Link.Handshake.{Session, calling, streaming, miss, greet, Run, here, next}
use fagprojekt.Link.Handshake.Progress.{call-Run}

-- From every state of a waiting server and a client about to send INIT whose array and address pass for
-- an answer: it is possible that the client goes over to sending video while the server waits.
unset_answer :
    (server_addr client_addr : SockAddr) (s : Session)
    → s.server.status ≡ ConnectionStatus.waiting_init
    → s.place ≡ calling
    → accepted server_addr s.greeter ≡ ok true
    → (t : Session) × Run server_addr client_addr s t
      × (t.place ≡ streaming)
      × (t.server.status ≡ ConnectionStatus.waiting_init)
unfolding recv_data_timeout
unset_answer server_addr client_addr s waits at passes =
    let called = call-Run server_addr client_addr s here at in
    (
      _,
      next called (
          greet
            (miss timed_out _ none s.greeter.src_addr s.greeter.response true refl refl passes)),
      refl,
      waits,
    )
