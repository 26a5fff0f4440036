-- ===== src/Stdnet/Lookup.antt =====
-- What the lookups of an interface find, and what an update of the interfaces keeps.
use mathlib.Core.Path.{subst}
use ziti_livekit_example.Prelude.{
  sym, ℕ, String, ◌==◌, ◌<>◌, ◌≡◌, inl, inr, refl, Bool-cases, List, [], ◌∷◌, All, eqb, arith,
  eq_iff,
}
use ziti_livekit_example.Outcome.{Error, reason, Result, ok, err, panic, ◌>>=◌}
use ziti_livekit_example.Openziti.Platform.{Platform}
use ziti_livekit_example.Stdnet.{
  OsInterface, Interface, System, Net, interface_by_index, interface_by_name, with_addrs, prepend,
  collect, update_interfaces,
}

-- An interface is the first of a list that has a property.
pub data First (P : Interface → Type 0) : List Interface → Interface → Type 0 where
  here : {i : Interface} {is : List Interface} → P i → First P (i ∷ is) i
  later : {i j : Interface} {is : List Interface} → ¬ P j → First P is i → First P (j ∷ is) i

abbrev pub NoneOf : (Interface → Type 0) → List Interface → Type 0
NoneOf P = All (λ i. ¬ P i)

-- A lookup that gave the first interface with a property, or an error if there is none.
pub data Looked (P : Interface → Type 0) (is : List Interface) (e : Error)
    : Result Interface → Type 0 where
  found : {i : Interface} → First P is i → Looked P is e (ok i)
  missing : NoneOf P is → Looked P is e (err e)

Looked-later :
    {P : Interface → Type 0} {j : Interface} {is : List Interface} {e : Error}
    {r : Result Interface}
    → ¬ P j
    → Looked P is e r
    → Looked P (j ∷ is) e r
Looked-later n (found f) = found (later n f)
Looked-later n (missing m) = missing (n, m)

-- InterfaceByName gives the first interface of that name, and an error that says the name exactly if
-- there is none.
pub interface_by_name-Looked :
    (name : String) (is : List Interface)
    → Looked
        (λ i. i.name ≡ name)
        is
        (reason ("interface not found: " <> name))
        (interface_by_name name is)
unfolding interface_by_name
interface_by_name-Looked name [] = missing tt
interface_by_name-Looked name (i ∷ is) = elim (Bool-cases (i.name == name)) [
  | inl t ↦ rw t (found (here ((eq_iff i.name name).0 t)))
  | inr f ↦
      rw f
        (Looked-later (λ q. ground (arith, eq_iff i.name name)) (interface_by_name-Looked name is))
]

-- InterfaceByIndex does the same for an index.
pub interface_by_index-Looked :
    (index : ℕ) (is : List Interface)
    → Looked (λ i. i.index ≡ index) is (reason "interface not found") (interface_by_index index is)
unfolding interface_by_index
interface_by_index-Looked index [] = missing tt
interface_by_index-Looked index (i ∷ is) = elim (Bool-cases (eqb i.index index)) [
  | inl t ↦ rw t (found (here (ground arith)))
  | inr f ↦ rw f (Looked-later (λ q. ground arith) (interface_by_index-Looked index is))
]

module _ {p : Platform} (sys : System p) where
  abbrev pub with_its_addrs : OsInterface → List String → Interface
  with_its_addrs oif addrs = record { index = oif.index; name = oif.name; addrs = addrs }

  -- The interfaces that a list of the system's gives, one by one with the addresses of each, or the
  -- failure of the first whose addresses cannot be had.
  pub data Described : List OsInterface → Result (List Interface) → Type 0 where
    none_left : Described [] (ok [])
    next :
        {oif : OsInterface} {oifs : List OsInterface} {addrs : List String} {is : List Interface}
        → sys.interface_addrs oif ≡ ok addrs
        → Described oifs (ok is)
        → Described (oif ∷ oifs) (ok (with_its_addrs oif addrs ∷ is))
    refused_here :
        {oif : OsInterface} {oifs : List OsInterface} {e : Error}
        → sys.interface_addrs oif ≡ err e
        → Described (oif ∷ oifs) (err e)
    crashed_here :
        {oif : OsInterface} {oifs : List OsInterface} {t : String}
        → sys.interface_addrs oif ≡ panic t
        → Described (oif ∷ oifs) (panic t)
    refused_later :
        {oif : OsInterface} {oifs : List OsInterface} {addrs : List String} {e : Error}
        → sys.interface_addrs oif ≡ ok addrs
        → Described oifs (err e)
        → Described (oif ∷ oifs) (err e)
    crashed_later :
        {oif : OsInterface} {oifs : List OsInterface} {addrs : List String} {t : String}
        → sys.interface_addrs oif ≡ ok addrs
        → Described oifs (panic t)
        → Described (oif ∷ oifs) (panic t)

  prepend-Described :
      (oif : OsInterface) (oifs : List OsInterface) (a : Result (List String))
      (r : Result (List Interface))
      → sys.interface_addrs oif ≡ a
      → Described oifs r
      → Described (oif ∷ oifs) (prepend sys (with_addrs sys oif a) r)
  unfolding prepend with_addrs
  prepend-Described oif oifs (ok addrs) (ok is) h d = next h d
  prepend-Described oif oifs (ok addrs) (err e) h d = refused_later h d
  prepend-Described oif oifs (ok addrs) (panic t) h d = crashed_later h d
  prepend-Described oif oifs (err e) r h d = refused_here h
  prepend-Described oif oifs (panic t) r h d = crashed_here h

  collect-Described : (oifs : List OsInterface) → Described oifs (collect sys oifs)
  unfolding collect
  collect-Described [] = none_left
  collect-Described (oif ∷ oifs) = prepend-Described oif oifs _ _ refl (collect-Described oifs)

  -- What an update of the interfaces gives and leaves.
  pub data Updated (n : Net p) : Result (Unit {0}) × Net p → Type 0 where
    replaced :
        {oifs : List OsInterface} {is : List Interface}
        → sys.interfaces ≡ ok oifs
        → Described oifs (ok is)
        → Updated n (ok tt, record n { interfaces = is })
    no_addrs :
        {oifs : List OsInterface} {e : Error}
        → sys.interfaces ≡ ok oifs
        → Described oifs (err e)
        → Updated n (err e, n)
    crashed_addrs :
        {oifs : List OsInterface} {t : String}
        → sys.interfaces ≡ ok oifs
        → Described oifs (panic t)
        → Updated n (panic t, n)
    no_interfaces : {e : Error} → sys.interfaces ≡ err e → Updated n (err e, n)
    crashed : {t : String} → sys.interfaces ≡ panic t → Updated n (panic t, n)

  update_with :
      (n : Net p) (oifs : List OsInterface) (r : Result (List Interface))
      → sys.interfaces ≡ ok oifs
      → collect sys oifs ≡ r
      → Updated n (update_interfaces sys n)
  unfolding update_interfaces ◌>>=◌
  update_with n oifs (ok is) h c =
      let eq : update_interfaces sys n ≡ (ok tt, record n { interfaces = is }) = simp (h, c) in
      subst (Updated n) (sym eq) (replaced h (rw c at (collect-Described oifs)))
  update_with n oifs (err e) h c =
      let eq : update_interfaces sys n ≡ (err e, n) = simp (h, c) in
      subst (Updated n) (sym eq) (no_addrs h (rw c at (collect-Described oifs)))
  update_with n oifs (panic t) h c =
      let eq : update_interfaces sys n ≡ (panic t, n) = simp (h, c) in
      subst (Updated n) (sym eq) (crashed_addrs h (rw c at (collect-Described oifs)))

  update_from :
      (n : Net p) (r : Result (List OsInterface))
      → sys.interfaces ≡ r
      → Updated n (update_interfaces sys n)
  unfolding update_interfaces ◌>>=◌
  update_from n (ok oifs) h = update_with n oifs _ h refl
  update_from n (err e) h =
      let eq : update_interfaces sys n ≡ (err e, n) = simp h in
      subst (Updated n) (sym eq) (no_interfaces h)
  update_from n (panic t) h =
      let eq : update_interfaces sys n ≡ (panic t, n) = simp h in
      subst (Updated n) (sym eq) (crashed h)

  -- UpdateInterfaces replaces the interfaces by all that the system has, in its order and each with its
  -- addresses, or gives the first failure and changes nothing.
  pub update_interfaces-Updated : (n : Net p) → Updated n (update_interfaces sys n)
  update_interfaces-Updated n = update_from n _ refl
