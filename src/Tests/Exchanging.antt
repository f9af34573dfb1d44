-- ===== src/Tests/Exchanging.antt =====
-- A message of two packets, the second of which waits for a GRANT.
use agent_transport.Base.{true, ℕ, ◌≡◌, false, List, [], ◌∷◌, replicate, arith}
use agent_transport.Config.{SocketAddr, TransportConfig, default, deliver}
use agent_transport.Sender.{is_done}
use agent_transport.EndToEnd.Exchange.{exchange, begin}
use agent_transport.EndToEnd.Exchange.Delivers.{exchange_delivers}

abbrev tight : TransportConfig
tight = record default { packet_size = 4; unscheduled_bytes = 4; grant_increment = 4 }

abbrev client : SocketAddr
client = record { ip = 0x7f00_0001; port = 9000 }

abbrev server : SocketAddr
server = record { ip = 0x7f00_0001; port = 9001 }

abbrev words : List ℕ
words = 1 ∷ 2 ∷ 3 ∷ 4 ∷ 5 ∷ 6 ∷ []

-- Whichever datagram is at position 1, or the last one, comes next.
abbrev picks : List (ℕ × ℕ)
picks = replicate 12 (1, 5)

exchange_delivers_example :
    let x = exchange client server (begin client server tight 7 words 0) picks in
    (x.net ≡ [])
    × (x.delivered ≡ deliver client 7 words ∷ [])
    × (x.panicked ≡ false)
    × (is_done x.sender server 7 ≡ true)
exchange_delivers_example =
    exchange_delivers tight client server 7 words 0 picks (omega arith) (omega arith) (omega arith)
      (omega arith) (omega arith) (omega arith) (omega arith) (omega arith)
