-- ===== src/Openziti/Auth.antt =====
-- lib/openziti/auth.go: enrolling on start, the API session, and keeping it alive.
pub mod ApiSession
pub mod Closing
pub mod Ending
use ziti_livekit_example.Prelude.{
  ℕ, zero, suc, ◌+◌, String, Bool, true, false, Option, none, some, List, [], ◌∷◌, ◌<>◌,
}
use ziti_livekit_example.Outcome.{
  Error, not_exist, reason, Result, ok, err, panic, Action, pure, fail, lift, attempt, modify,
  ◌>>=◌, ◌>>◌,
}
use ziti_livekit_example.Openziti.Platform.{
  Platform, World, Fields, Request, Response, session_request, client_do, close_body,
}
use ziti_livekit_example.Openziti.Disk.{os_stat, read_file}
use ziti_livekit_example.Openziti.Enroll.{EnrollOptions, run}

-- The options of EnrollIfNeeded's action.
unfoldable pub enroll_options : String → EnrollOptions
enroll_options ziti_id_path = record {
  remove_jwt = false;
  key_alg = "RSA";
  jwt_path = ziti_id_path <> ".jwt";
  jwt_string = "";
  output_path = "";
  key_path = "";
  cert_path = "";
  id_name = "";
  ca_override = "";
  username = "";
  password = "";
  verbose = false;
}

-- The world and the deferred calls of a goroutine in KeepAlive.
pub record Alive (p : Platform) : Type 0 where
  pub world : World p
  pub deferred : ℕ

-- KeepAlive waits for its next tick, or has returned.
pub data Progress (p : Platform) : Type 0 where
  looping : Alive p → Progress p
  returned : World p → Progress p

module _ (p : Platform) where
  -- What EnrollIfNeeded does about the outcome of `os.Stat`.
  unfoldable pub enroll_found : String → Result (Unit {0}) → Action (World p) (Unit {0})
  enroll_found ziti_id_path (ok u) = run p (enroll_options ziti_id_path) >> pure tt
  enroll_found ziti_id_path (err not_exist) = pure tt
  enroll_found ziti_id_path (err (reason t)) = fail (reason t)
  enroll_found ziti_id_path (panic t) = lift (panic t)

  -- EnrollIfNeeded
  unfoldable pub enroll_if_needed : String → Action (World p) (Unit {0})
  unfolding enroll_found
  enroll_if_needed ziti_id_path = do
    found ← attempt (os_stat p (ziti_id_path <> ".jwt"))
    enroll_found ziti_id_path found

  -- jsonData["id"].(map[string]interface{}), whose copy keeps every key
  unfoldable pub id_map : Option Fields → Result Fields
  id_map (some fs) = ok fs
  id_map none = panic "interface conversion: interface {} is not map[string]interface {}"

  -- managementClient.Authenticate
  unfoldable pub authenticate_at : String → p.Credentials → Action (World p) String
  authenticate_at url credentials w =
      let (r, net') = p.authenticate url credentials w.net in (r, record w { net = net' })

  -- CreateApiSession
  unfoldable pub create_api_session : String → String → Action (World p) (Unit {0})
  unfolding id_map authenticate_at
  create_api_session ctrl_url ziti_id_path = do
    json_file ← read_file p (ziti_id_path <> ".json")
    json_data ← lift (p.unmarshal_id json_file)
    converted ← lift (id_map json_data)
    credentials ← lift (p.credentials_from_map converted)
    token ← authenticate_at (ctrl_url <> "/edge/management/v1") credentials
    modify (λ w. record w { session_token = token })

  -- KeepAlive's goroutine: the deferred closes that wait for its return are counted.
  abbrev in_world : {A : Type 0} → Action (World p) A → Action (Alive p) A
  in_world m s = let (r, w) = m s.world in (r, record s { world = w })

  -- One tick of KeepAlive: `defer resp.Body.Close()` in the loop only adds a deferred call.
  unfoldable pub keep_alive_tick : String → Action (Alive p) (Unit {0})
  keep_alive_tick ctrl_url = do
    req ← in_world (session_request p "GET" (ctrl_url <> "/edge/management/v1/") "")
    resp ← in_world (client_do p req)
    modify (λ s. record s { deferred = s.deferred + 1 })
    lift resp.body >>= λ _. pure tt

  -- The deferred calls, at the return.
  unfoldable pub run_deferred : ℕ → World p → World p
  unfolding close_body
  run_deferred zero w = w
  run_deferred (suc n) w = run_deferred n (close_body p w)

  -- What a tick's outcome does to the loop: an error returns from it.
  unfoldable pub after_tick : Result (Unit {0}) → Alive p → Progress p
  after_tick (ok u) s = looping s
  after_tick (err e) s = returned (run_deferred s.deferred s.world)
  after_tick (panic t) s = returned (run_deferred s.deferred s.world)

  -- The loop over the ticks of the ticker
  unfoldable pub keep_alive_loop : String → ℕ → Progress p → Progress p
  keep_alive_loop ctrl_url zero g = g
  keep_alive_loop ctrl_url (suc ticks) (looping s) =
      keep_alive_loop ctrl_url ticks
        (after_tick (keep_alive_tick ctrl_url s).0 (keep_alive_tick ctrl_url s).1)
  keep_alive_loop ctrl_url (suc ticks) (returned w) = returned w

  -- KeepAlive, after a number of ticks
  unfoldable pub keep_alive : String → ℕ → World p → Progress p
  keep_alive ctrl_url ticks w =
      keep_alive_loop ctrl_url ticks (looping (record { world = w; deferred = 0 }))
