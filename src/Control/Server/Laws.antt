-- ===== src/Control/Server/Laws.antt =====
-- How the set-up of the control socket fares.
use ocserv_rs.Base.{
  ℕ, ◌≡◌, refl, ◌∙◌, Option, none, some, true, false, ok, Bool-cases, inl, inr, arith,
}
use ocserv_rs.Base.Text.{Text}
use ocserv_rs.Config.{ControlConfig}
use ocserv_rs.Control.Server.{FileSystem, with_parent, prepare, listen, or_as_it_was, socket_mode}

-- What the calls promise about a path, to a process with the rights on its directory: a file there is
-- removed, its directory is made if it is missing, and a socket is bound where there is no file.
pub record HasRights {F : Type 0} (os : FileSystem F) (path : Text) : Type 0 where
  pub removes :
      (f : F)
      → os.exists path f ≡ true
      → ((g : F) × (os.remove_file path f ≡ some g) × (os.exists path g ≡ false))
  pub makes :
      (directory : Text) (f : F)
      → os.parent path ≡ some directory
      → os.exists path f ≡ false
      → ((g : F) × (os.create_dir_all directory f ≡ some g)
          × (os.exists path g ≡ false)
          × (os.exists directory g ≡ true))
  pub binds :
      (f : F)
      → os.exists path f ≡ false
      → ((directory : Text) → os.parent path ≡ some directory → os.exists directory f ≡ true)
      → ((g : F) × (os.bind path f ≡ some g) × (os.exists path g ≡ true))
  pub keeps :
      (mode : ℕ) (f g : F)
      → os.set_permissions path mode f ≡ some g
      → os.exists path g ≡ os.exists path f

-- Where a socket can be bound.
abbrev IsFree : {F : Type 0} → FileSystem F → Text → F → Type 0
IsFree os path f =
    (os.exists path f ≡ false)
    × ((directory : Text) → os.parent path ≡ some directory → os.exists directory f ≡ true)

module _ {F : Type 0} (os : FileSystem F) (path : Text) (h : HasRights os path) where
  with_parent-IsFree :
      (f : F)
      → os.exists path f ≡ false
      → ((g : F) × (with_parent os (os.parent path) f ≡ ok g) × IsFree os path g)
  with_parent-IsFree f free = go (os.parent path) refl
    where
      go :
          (o : Option Text)
          → os.parent path ≡ o
          → ((g : F) × (with_parent os o f ≡ ok g) × IsFree os path g)
      go none e = (f, refl, (free, λ d e'. ground arith))
      go (some d) e =
          let (g, made, still, there) = h.makes d f e free in
          (g, ground arith, (still, λ d' e'. ground arith))

  prepare-IsFree : (f : F) → ((g : F) × (prepare os path f ≡ ok g) × IsFree os path g)
  unfolding prepare
  prepare-IsFree f = elim (Bool-cases (os.exists path f)) [
    | inl old ↦
        let (g, removed, free) = h.removes f old in rw (old, removed) (with_parent-IsFree g free)
    | inr new ↦ rw new (with_parent-IsFree f new)
  ]

  chmod-exists :
      (f : F)
      → os.exists path f ≡ true
      → (o : Option F) → os.set_permissions path socket_mode f ≡ o
      → os.exists path (or_as_it_was f o) ≡ true
  chmod-exists f bound none e = bound
  chmod-exists f bound (some g) e = h.keeps socket_mode f g e ∙ bound

-- With the rights on its directory, the control server ends up with its socket bound whatever state it
-- starts in: a socket left at the path, a missing directory or a failure to set the mode does not
-- keep it from listening.
pub listen_succeeds :
    {F : Type 0} (os : FileSystem F) (config : ControlConfig) (f : F)
    → HasRights os config.socket_path
    → ((g : F) × (listen os config f ≡ ok g) × (os.exists config.socket_path g ≡ true))
unfolding listen
listen_succeeds os config f h =
    let (g, prepared, free) = prepare-IsFree os config.socket_path h f in
    let (k, bound, there) = h.binds g free.0 free.1 in
    (
      or_as_it_was k (os.set_permissions config.socket_path socket_mode k),
      rw (prepared, bound) refl,
      chmod-exists os config.socket_path h k there _ refl,
    )
