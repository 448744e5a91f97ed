-- ===== src/Tests/Handshakes.antt =====
-- The server and the client over the network, bob's board being the server's and alice's the client's.
use fagprojekt.Base.{◌≡◌, refl, [], ◌∷◌, arith}
use fagprojekt.Buffer.Invariant.{contents}
use fagprojekt.Connection.{addr_match}
use fagprojekt.Server.Handshake.{greeted}
use fagprojekt.Client.{accepted}
use fagprojekt.Link.Handshake.{
  hears, ServerStep, calling, listening, streaming, Session, lose, carry, Run, here, next, Start,
  Met,
}
use fagprojekt.Link.Handshake.Agreement.{agreement}
use fagprojekt.Link.Handshake.Lost.{Gone, lost_answer}
use fagprojekt.Link.Handshake.Progress.{
  request, answer, call-Run, miss-Run, answer-Run, hear-Run, progress,
}
use fagprojekt.Link.Handshake.Repeated.{CalledAgain, repeated_init}
use fagprojekt.Tests.Servers.{alice, bob, server, buffer-IsValid, receiver}

abbrev first : Session
first = record {
  server = server [];
  bytes = 0 ∷ 0 ∷ [];
  receiver = receiver;
  place = calling;
  greeter = record { src_addr = alice; response = 0 ∷ 0 ∷ [] };
  flight = [];
}

first-Start : Start bob first
unfolding accepted addr_match
first-Start = record { waits = refl; calls = refl; nothing = refl; unanswered = refl }

-- INIT was sent, and the server has answered it.
abbrev answered : Session
answered = record first {
  server = greeted alice [] (hears (request bob alice) (server []));
  bytes = 49 ∷ 0 ∷ [];
  place = listening;
  flight = answer bob alice ∷ [];
}

answered-Run : Run bob alice first answered
answered-Run = answer-Run bob alice _ (call-Run bob alice first here refl) [] refl refl

agreement_example : Met alice (greeted alice [] (hears (request bob alice) (server [])))
unfolding addr_match
agreement_example =
    agreement bob alice refl first-Start (hear-Run bob alice answered answered-Run [] refl refl)
      refl

-- The answer is lost.
abbrev lost : Session
lost = record answered { flight = [] }

lost-Run : Run bob alice first lost
lost-Run = next answered-Run (carry (lose [] [] (answer bob alice) refl))

lost-Gone : Gone bob alice lost
unfolding accepted addr_match
lost-Gone = record { receives = refl; lost = tt; greets = λ p. cc; unanswered = refl }

-- The client sends INIT again.
lost_answer_example :
    Gone bob alice (record lost { place = listening; flight = request bob alice ∷ [] })
unfolding accepted addr_match
lost_answer_example =
    lost_answer bob alice refl lost-Gone
      (call-Run bob alice _ (miss-Run bob alice lost here refl refl) refl)

progress_example :
    (u : Session) × Run bob alice first u × (u.place ≡ streaming) × Met alice u.server
unfolding addr_match
progress_example = progress bob alice refl first-Start here refl

repeated_init_example :
    (missed again heard t : Session) × Run bob alice first missed
    × CalledAgain bob alice missed again
    × Run bob alice again heard
    × (heard.place ≡ streaming)
    × Met alice heard.server
    × (contents heard.server.buffer ≡ [])
    × (heard.flight ≡ request bob alice ∷ [])
    × ServerStep bob alice heard t
    × (contents t.server.buffer ≡ 1 ∷ 0 ∷ 49 ∷ [])
unfolding accepted
repeated_init_example = repeated_init bob alice first first-Start buffer-IsValid refl (omega arith)
