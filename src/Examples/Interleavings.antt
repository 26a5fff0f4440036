-- ===== src/Examples/Interleavings.antt =====
-- Orders of the steps of a reader that ends and of a call of connect.
use ziti_livekit_example.Prelude.{
  ◌+◌, String, ◌≡◌, refl, true, false, Option, none, some, List, [], inl, inr,
}
use ziti_livekit_example.Outcome.{Error, reason, err, ◌>>=◌, fail}
use ziti_livekit_example.SignalClient.Types.{
  SignalResponse, Websocket, Client, on_close, on_net, run_callback,
}
use ziti_livekit_example.SignalClient.Reader.{read_response, read_on, decode}
use ziti_livekit_example.SignalClient.Connect.{close_conn}
use ziti_livekit_example.SignalClient.Interleaving.{
  serving, ended, signalled, shut, stored, System, Reach, at, start, later, stop, unset_conn,
  signal, tell, look, pick, load, close_old, wait, store,
}
use ziti_livekit_example.SignalClient.Interleaving.Invariant.{Starts}
use ziti_livekit_example.SignalClient.Interleaving.Views.{IsPast}
use ziti_livekit_example.SignalClient.Interleaving.Waits.{
  stored-Keeps, closed_with, stored-wait_reader,
}
use ziti_livekit_example.SignalClient.Interleaving.Race.{connect_loses_conn}
use ziti_livekit_example.SignalClient.Interleaving.Progress.{Reads, Moves, connect-Moves}
use ziti_livekit_example.Examples.Signals.{socket}

-- A websocket that has nothing more to give.
abbrev quiet : Websocket
quiet = record socket { read_message = λ conn n. (err (reason "EOF"), n + 1) }

-- A client whose reader serves a connection of it.
abbrev serving_client : Client quiet
serving_client = record {
  net = 3;
  conn = some "old";
  is_started = true;
  pending_response = none;
  reader_closed_ch = some 0;
  readers = 1;
  closed_chs = [];
  installed = λ cb. true;
  delivered = [];
}

serving-Starts : Starts quiet 0 "new" serving_client
serving-Starts = record { started = refl; own = refl; fresh = tt }

read_fails : (read_response quiet serving_client).0 ≡ err (reason "EOF")
unfolding read_response read_on on_net decode ◌>>=◌
read_fails = refl

-- Close reads its three fields and closes the connection before the reader fails, and waits for it.
looked : Reach quiet 0 "new" serving_client (at quiet serving_client serving (shut true (some 0)))
unfolding close_conn
looked =
    later (later (later (later start (look _ _)) (pick _ _ _)) (load _ _ _ _)) (close_old _ _ _ _ _)

in_order :
    (x : Client quiet) × Reach quiet 0 "new" serving_client (at quiet x signalled (stored true))
in_order =
    let over = later (later (later looked (stop _ _ read_fails)) (unset_conn _ _)) (signal _ _) in
    (_, later (later over (wait _ _ _ (inl refl))) (store _ _ _))

stored-Keeps_example : IsPast signalled × (in_order.0.conn ≡ some "new")
stored-Keeps_example = stored-Keeps quiet 0 "new" serving_client serving-Starts in_order.1 refl

stored-wait_reader_example :
    (late : List SignalResponse) × (run_callback on_close "" in_order.0
      ≡ closed_with quiet 0 "new" serving_client late 4)
unfolding run_callback in_order read_response ◌>>=◌
stored-wait_reader_example =
    stored-wait_reader quiet 0 "new" serving_client serving-Starts (later in_order.1 (tell _ _))
      refl refl

connect_loses_conn_example :
    (s : System quiet) × Reach quiet 0 "new" serving_client s
    × (s.caller ≡ stored false)
    × (s.reader ≡ ended)
    × (s.client.conn ≡ none)
    × ((read_response quiet s.client).0 ≡ err (reason "cannot read response before join"))
connect_loses_conn_example = connect_loses_conn quiet 0 "new" serving_client read_fails

reads_on : (o : Option String) (x : Client quiet) → (e : Error) × ((read_on quiet o x).0 ≡ err e)
unfolding read_on on_net fail ◌>>=◌
reads_on none x = (_, refl)
reads_on (some conn) x = (_, refl)

reads : Reads quiet
unfolding read_response
reads x = inr (reads_on x.conn x)

connect-Moves_example : Moves quiet 0 "new" (at quiet serving_client serving (shut true (some 0)))
connect-Moves_example = connect-Moves quiet 0 "new" serving_client serving-Starts reads looked
