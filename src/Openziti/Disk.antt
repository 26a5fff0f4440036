-- ===== src/Openziti/Disk.antt =====
-- The functions of `os` that lib/openziti calls, on the disk of the world.
use ziti_livekit_example.Prelude.{String, Option, none, some, ◌==◌, if◌then◌else◌}
use ziti_livekit_example.Outcome.{Error, not_exist, Result, ok, err, panic, Action}
use ziti_livekit_example.Openziti.Platform.{
  Platform, World, Disk, FileOp, stat, read, create, write, remove,
}

-- A function of paths, changed at one path.
abbrev pub update {ℓ} : {A : Type ℓ} → (String → A) → String → A → String → A
update f path v q = if path == q then v else f q

-- The error of an operation on a file that has to be there, if any.
unfoldable pub file_error : Disk → FileOp → String → Option Error
file_error d op path = elim (d.fault op path) [
  | some e ↦ some e
  | none ↦ elim (d.contents path) [ some t ↦ none | none ↦ some not_exist ]
]

module _ (p : Platform) where
  abbrev pub set_contents : String → Option String → World p → World p
  set_contents path v w = record w {
    disk = record w.disk { contents = update w.disk.contents path v };
  }

  -- os.Stat
  unfoldable pub os_stat : String → Action (World p) (Unit {0})
  os_stat path w = (elim (file_error w.disk stat path) [ none ↦ ok tt | some e ↦ err e ], w)

  -- os.ReadFile
  unfoldable pub read_file : String → Action (World p) String
  read_file path w = (
    elim (file_error w.disk read path) [
      | some e ↦ err e
      | none ↦ elim (w.disk.contents path) [ some t ↦ ok t | none ↦ err not_exist ]
    ],
    w,
  )

  -- os.Create, which empties the file
  unfoldable pub create_file : String → Action (World p) (Unit {0})
  create_file path w = elim (w.disk.fault create path) [
    | some e ↦ (err e, w)
    | none ↦ (ok tt, set_contents path (some "") w)
  ]

  -- enc.Encode(v) on a file that was just created: `text` is what v marshals to, of which a write that
  -- fails may leave a part
  unfoldable pub encode_file : String → Result String → Action (World p) (Unit {0})
  encode_file path (err e) w = (err e, w)
  encode_file path (panic t) w = (panic t, w)
  encode_file path (ok text) w = elim (w.disk.fault write path) [
    | some e ↦ (err e, set_contents path (some (w.disk.partial path text)) w)
    | none ↦ (ok tt, set_contents path (some text) w)
  ]

  -- os.Remove
  unfoldable pub remove_file : String → Action (World p) (Unit {0})
  remove_file path w = elim (file_error w.disk remove path) [
    | some e ↦ (err e, w)
    | none ↦ (ok tt, set_contents path none w)
  ]
