-- ===== src/Client/Service/Launchd.antt =====
-- What an installation under launchd leaves on the disk.
use mygrok.Base.{
  ◌≡◌, refl, List, [], ◌∷◌, ◌++◌, none, Bytes, codes, eq_refl, sym, subst, All, arith, Option-cases,
  inl, inr,
}
use mygrok.Base.Dict.{Dict, lookup, insert, erase, lookup-erase}
use mygrok.Client.Service.{
  Os, agents_dir, launchd_plist_path, launchd_label_prefixes, find_plist, find_launchd_plist,
  unload_plists, unload_all_launchd, install_launchd,
}

module _ (O : Os) where
  -- The path of the plist of a label.
  abbrev pub plist_of : Bytes → Bytes → Bytes
  plist_of prefix name = O.join (agents_dir O ∷ (prefix ++ (name ++ codes ".plist")) ∷ [])

  -- What is missing before stays missing.
  unload_plists-missing :
      (ps : List Bytes) (name : Bytes) (disk : Dict Bytes) (p : Bytes)
      → lookup p disk ≡ none
      → lookup p (unload_plists O ps name disk).0 ≡ none
  unfolding unload_plists
  unload_plists-missing [] name disk p e = e
  unload_plists-missing (prefix ∷ ps) name disk p e =
      let gone = plist_of prefix name in
      elim (Option-cases (lookup gone disk)) [
        | inl q ↦ rw (q, unload_plists) (unload_plists-missing ps name disk p e)
        | inr (body, q) ↦
            rw (q, unload_plists)
              (unload_plists-missing ps name (erase gone disk) p
                (ground (arith, lookup-erase gone p disk, e)))
      ]

  -- No label of the list has a plist.
  abbrev Cleared : List Bytes → Bytes → Dict Bytes → Type 0
  Cleared ps name disk = All (λ prefix. lookup (plist_of prefix name) disk ≡ none) ps

  unload_plists-Cleared :
      (ps : List Bytes) (name : Bytes) (disk : Dict Bytes)
      → Cleared ps name (unload_plists O ps name disk).0
  unfolding unload_plists
  unload_plists-Cleared [] name disk = tt
  unload_plists-Cleared (prefix ∷ ps) name disk =
      let gone = plist_of prefix name in
      let out : lookup gone (erase gone disk) ≡ none =
        ground (arith, lookup-erase gone gone disk, eq_refl gone) in
      elim (Option-cases (lookup gone disk)) [
        | inl q ↦
            let same : (unload_plists O (prefix ∷ ps) name disk).0
                ≡ (unload_plists O ps name disk).0 =
              rw (q, unload_plists) refl in
            subst (Cleared (prefix ∷ ps) name) (sym same)
              (unload_plists-missing ps name disk gone q, unload_plists-Cleared ps name disk)
        | inr (body, q) ↦
            let same : (unload_plists O (prefix ∷ ps) name disk).0
                ≡ (unload_plists O ps name (erase gone disk)).0 =
              rw (q, unload_plists) refl in
            subst (Cleared (prefix ∷ ps) name) (sym same) (
              unload_plists-missing ps name (erase gone disk) gone out,
              unload_plists-Cleared ps name (erase gone disk),
            )
      ]

  find_plist-Cleared :
      (ps : List Bytes) (name : Bytes) (disk : Dict Bytes)
      → Cleared ps name disk
      → find_plist O ps name disk ≡ none
  unfolding find_plist
  find_plist-Cleared [] name disk c = refl
  find_plist-Cleared (prefix ∷ ps) name disk c =
      ground (arith, c.0, find_plist-Cleared ps name disk c.1)

  -- After an installation under launchd the plist that it has written is gone: it is removed with the
  -- older ones before launchctl is told to load it, and no service of that name is found. Joining a
  -- path to a joined one is joining them all.
  pub install_launchd-missing :
      (name body : Bytes) (disk : Dict Bytes)
      → ((a b c : Bytes) → O.join (O.join (a ∷ b ∷ []) ∷ c ∷ []) ≡ O.join (a ∷ b ∷ c ∷ []))
      → ((install_launchd O name body disk).1 ≡ none)
        × (find_launchd_plist O name (install_launchd O name body disk).0 ≡ none)
  unfolding install_launchd find_launchd_plist unload_all_launchd launchd_plist_path
  install_launchd-missing name body disk joined =
      let written = insert (launchd_plist_path O name) body disk in
      let clear = unload_plists-Cleared launchd_label_prefixes name written in
      let path =
        joined O.home (codes "Library/LaunchAgents")
          (codes "dev.mygrok.agent." ++ (name ++ codes ".plist")) in
      (
        subst (λ p. lookup p (unload_plists O launchd_label_prefixes name written).0 ≡ none) path
            clear.0,
        find_plist-Cleared launchd_label_prefixes name
            (unload_plists O launchd_label_prefixes name written).0 clear,
      )
