-- ===== src/SignalClient/Interleaving.antt =====
-- connect's Close and store of a new connection, and the reader of the old one that ends, as atomic steps in any
-- order: signalclient.go reads and writes its atomic fields one at a time.
pub mod Invariant
pub mod Progress
pub mod Race
pub mod Views
pub mod Waits
use ziti_livekit_example.Prelude.{ℕ, Bool, true, false, Option, none, some, List, [], ◌∷◌, ◌≡◌, ◌⊎◌}
use ziti_livekit_example.Outcome.{ok, err, Error}
use ziti_livekit_example.SignalClient.Types.{
  SignalResponse, on_close, Websocket, Client, run_callback,
}
use ziti_livekit_example.SignalClient.Reader.{read_response, handle_response}
use ziti_livekit_example.SignalClient.Connect.{close_conn}

-- Where readWorker is: in its loop, or behind one of the statements of its deferred function.
pub data ReaderAt : Type 0 where
  serving stopped unset signalled ended : ReaderAt

-- Where connect is: behind one of the reads of Close, with what it read, or behind what follows them.
pub data CallerAt (Conn : Type 0) : Type 0 where
  idle : CallerAt Conn
  seen : Bool → CallerAt Conn
  picked : Bool → Option ℕ → CallerAt Conn
  loaded : Bool → Option ℕ → Option Conn → CallerAt Conn
  shut : Bool → Option ℕ → CallerAt Conn
  waited stored : Bool → CallerAt Conn

pub record System (ws : Websocket) : Type 0 where
  pub client : Client ws
  pub reader : ReaderAt
  pub caller : CallerAt ws.Conn

-- A channel is among those that were closed.
abbrev pub IsClosed : ℕ → List ℕ → Type 0
IsClosed n [] = ⊥
IsClosed n (ch ∷ chs) = (n ≡ ch) ⊎ IsClosed n chs

module _ (ws : Websocket) where
  abbrev pub at : Client ws → ReaderAt → CallerAt ws.Conn → System ws
  at c r k = record { client = c; reader = r; caller = k }

  -- A step of the reader, whose channel is `ch`, or of the call of connect that dialled `new_conn`. A nil
  -- response ends the process, which is no step.
  pub data Step (ch : ℕ) (new_conn : ws.Conn) : System ws → System ws → Type 0 where
    serve :
        (c : Client ws) (k : CallerAt ws.Conn) {res : SignalResponse}
        → (read_response ws c).0 ≡ ok (some res)
        → Step ch new_conn
            (at c serving k)
            (at (handle_response ws res (read_response ws c).1) serving k)
    -- c.isStarted.Store(false)
    stop :
        (c : Client ws) (k : CallerAt ws.Conn) {e : Error}
        → (read_response ws c).0 ≡ err e
        → Step ch new_conn
            (at c serving k)
            (at (record (read_response ws c).1 { is_started = false }) stopped k)
    -- c.conn.Store(nil)
    unset_conn :
        (c : Client ws) (k : CallerAt ws.Conn)
        → Step ch new_conn (at c stopped k) (at (record c { conn = none }) unset k)
    -- close(readerClosedCh)
    signal :
        (c : Client ws) (k : CallerAt ws.Conn)
        → Step ch new_conn
            (at c unset k)
            (at (record c { closed_chs = ch ∷ c.closed_chs }) signalled k)
    -- c.OnClose()
    tell :
        (c : Client ws) (k : CallerAt ws.Conn)
        → Step ch new_conn (at c signalled k) (at (run_callback on_close "" c) ended k)
    -- isStarted := c.IsStarted()
    look :
        (c : Client ws) (r : ReaderAt) → Step ch new_conn (at c r idle) (at c r (seen c.is_started))
    -- readerClosedCh := c.readerClosedCh
    pick :
        (c : Client ws) (r : ReaderAt) (b : Bool)
        → Step ch new_conn (at c r (seen b)) (at c r (picked b c.reader_closed_ch))
    -- conn := c.websocketConn()
    load :
        (c : Client ws) (r : ReaderAt) (b : Bool) (o : Option ℕ)
        → Step ch new_conn (at c r (picked b o)) (at c r (loaded b o c.conn))
    -- conn.Close()
    close_old :
        (c : Client ws) (r : ReaderAt) (b : Bool) (o : Option ℕ) (conn : Option ws.Conn)
        → Step ch new_conn (at c r (loaded b o conn)) (at (close_conn ws conn c) r (shut b o))
    -- the channel is not received from
    pass :
        (c : Client ws) (r : ReaderAt) (o : Option ℕ)
        → Step ch new_conn (at c r (shut false o)) (at c r (waited false))
    pass_nil :
        (c : Client ws) (r : ReaderAt)
        → Step ch new_conn (at c r (shut true none)) (at c r (waited true))
    -- <-readerClosedCh, of a channel that is closed
    wait :
        (c : Client ws) (r : ReaderAt) (n : ℕ)
        → IsClosed n c.closed_chs
        → Step ch new_conn (at c r (shut true (some n))) (at c r (waited true))
    -- c.conn.Store(conn)
    store :
        (c : Client ws) (r : ReaderAt) (b : Bool)
        → Step ch new_conn (at c r (waited b)) (at (record c { conn = some new_conn }) r (stored b))

  -- What is reached from a client whose reader serves, when connect has dialled.
  pub data Reach (ch : ℕ) (new_conn : ws.Conn) (c : Client ws) : System ws → Type 0 where
    start : Reach ch new_conn c (at c serving idle)
    later : {s t : System ws} → Reach ch new_conn c s → Step ch new_conn s t → Reach ch new_conn c t
