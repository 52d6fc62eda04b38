-- ===== src/Modbus/Socket.antt =====
-- The receiving side of a socket, and `_receive_exact`. What the peer sends is a list of arrivals;
-- one `recv` returns bytes of the first.
pub mod Receive
use hedp.Prelude.{
  ℕ, zero, suc, ◌-◌, Bool, true, false, List, [], ◌∷◌, ◌++◌, ltb, leb, ◌==◌, if◌then◌else◌, length,
  take, drop, Result, ok, err, raise_if, ◌>>=◌, ◌>>◌,
}
use hedp.Prelude.Bytes.{Bytes}

-- Bytes that arrive, or an `OSError` or `TimeoutError` of the call.
pub data Arrival : Type 0 where
  bytes : Bytes → Arrival
  failure : Arrival

pub data SocketError : Type 0 where
  os_error closed_early : SocketError

-- `connection.recv(size)`: at most `size` bytes; none once the peer has closed.
unfoldable pub recv : ℕ → List Arrival → Result SocketError (Bytes × List Arrival)
recv size [] = ok ([], [])
recv size (failure ∷ arrivals) = err os_error
recv size (bytes chunk ∷ arrivals) =
    if leb (length chunk) size
    then ok (chunk, arrivals)
    else ok (take size chunk, bytes (drop size chunk) ∷ arrivals)

-- The loop of `_receive_exact`, with a bound on its rounds: a round that goes on has received a byte.
unfoldable pub receive_rounds :
    ℕ → ℕ → Bytes → List Arrival → Result SocketError (Bytes × List Arrival)
receive_rounds zero size chunks arrivals = ok (chunks, arrivals)
receive_rounds (suc rounds) size chunks arrivals = elim (ltb (length chunks) size) [
  | false ↦ ok (chunks, arrivals)
  | true ↦ do
    (chunk, rest) ← recv (size - length chunks) arrivals
    raise_if (length chunk == 0) closed_early
    receive_rounds rounds size (chunks ++ chunk) rest
]

unfoldable pub receive_exact : List Arrival → ℕ → Result SocketError (Bytes × List Arrival)
receive_exact arrivals size = receive_rounds size size [] arrivals
