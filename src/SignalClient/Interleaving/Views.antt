-- ===== src/SignalClient/Interleaving/Views.antt =====
-- What a client holds, by where its reader and the caller are.
use mathlib.Core.List.{append_assoc}
use ziti_livekit_example.Prelude.{
  ℕ, Bool, true, false, Option, none, some, List, [], ◌∷◌, ◌++◌, ◌≡◌, refl, ap, sym, ◌∙◌, inl, inr,
  String,
}
use ziti_livekit_example.SignalClient.Types.{SignalResponse, Callback, on_close}
use ziti_livekit_example.SignalClient.Reader.Dispatch.{runs, runs_of, all_runs}
use ziti_livekit_example.SignalClient.Connect.Lifecycle.{Fresh}
use ziti_livekit_example.SignalClient.Interleaving.{
  ReaderAt, serving, stopped, unset, signalled, ended, CallerAt, idle, seen, picked, loaded, shut,
  waited, stored, IsClosed,
}

-- Whether the caller has not read yet that the reader has ended.
abbrev pub saw : {Conn : Type 0} → CallerAt Conn → Bool
saw idle = true
saw (seen b) = b
saw (picked b o) = b
saw (loaded b o conn) = b
saw (shut b o) = b
saw (waited b) = b
saw (stored b) = b

abbrev pub is_serving : ReaderAt → Bool
is_serving serving = true
is_serving _ = false

abbrev pub closed_by : ReaderAt → ℕ → List ℕ → List ℕ
closed_by signalled ch chs = ch ∷ chs
closed_by ended ch chs = ch ∷ chs
closed_by _ ch chs = chs

abbrev pub left_by : {Conn : Type 0} → ReaderAt → Option Conn → Option Conn
left_by serving conn = conn
left_by stopped conn = conn
left_by _ conn = none

abbrev pub conn_at : {Conn : Type 0} → CallerAt Conn → Option Conn → Conn → Option Conn
conn_at (stored b) old new_conn = some new_conn
conn_at _ old new_conn = old

-- The runs of callbacks that the reader has made.
abbrev pub told_by : ReaderAt → (Callback → Bool) → List SignalResponse → List (Callback × String)
told_by ended installed late = all_runs installed late ++ runs_of installed (some on_close) ""
told_by _ installed late = all_runs installed late

-- The reader has closed its channel.
abbrev pub IsPast : ReaderAt → Type 0
IsPast signalled = Unit {0}
IsPast ended = Unit {0}
IsPast _ = ⊥

-- What the caller has read, of a reader with a channel.
abbrev pub Fits : {Conn : Type 0} → ℕ → ReaderAt → CallerAt Conn → Type 0
Fits ch r idle = Unit {0}
Fits ch r (seen b) = Unit {0}
Fits ch r (picked b o) = o ≡ some ch
Fits ch r (loaded b o conn) = o ≡ some ch
Fits ch r (shut b o) = o ≡ some ch
Fits ch r (waited b) = IsPast r
Fits ch r (stored b) = IsPast r

pub of_some : {A : Type 0} {a b : A} → some a ≡ some b → a ≡ b
of_some e = cc

pub IsClosed-not_Fresh : (ch : ℕ) (chs : List ℕ) → IsClosed ch chs → Fresh ch chs → ⊥
IsClosed-not_Fresh ch [] i f = elim i [ ]
IsClosed-not_Fresh ch (d ∷ ds) (inl e) (h, k) = h e
IsClosed-not_Fresh ch (d ∷ ds) (inr i) (h, k) = IsClosed-not_Fresh ch ds i k

pub closed-IsPast :
    (r : ReaderAt) (ch : ℕ) (chs : List ℕ)
    → Fresh ch chs
    → IsClosed ch (closed_by r ch chs)
    → IsPast r
closed-IsPast serving ch chs h i = IsClosed-not_Fresh ch chs i h
closed-IsPast stopped ch chs h i = IsClosed-not_Fresh ch chs i h
closed-IsPast unset ch chs h i = IsClosed-not_Fresh ch chs i h
closed-IsPast signalled ch chs h i = tt
closed-IsPast ended ch chs h i = tt

pub all_runs-append :
    (set : Callback → Bool) (xs ys : List SignalResponse)
    → all_runs set (xs ++ ys) ≡ all_runs set xs ++ all_runs set ys
all_runs-append set [] ys = refl
all_runs-append set (x ∷ xs) ys =
    ap (λ l. runs set x ++ l) (all_runs-append set xs ys) ∙ sym (append_assoc (runs set x) _ _)
