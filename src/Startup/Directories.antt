-- ===== src/Startup/Directories.antt =====
-- What setupDirectories of src/main.cpp leaves.
use buckey.Common.{
  ◌≡◌, refl, sym, subst, inl, inr, Bool, true, false, not, ◌&&◌, Option, none, some, arith,
  if◌then◌else◌, Bool-cases, String, if_holds, str_eq, str_eq_iff,
}
use buckey.Dispatch.{string_starts_with}
use buckey.Registry.{◌&◌}
use buckey.Startup.{
  Disk, make_parts, core_directory, prepare_config, prepare_assets, fresh_tmp, setup_directories,
  config_file,
}

abbrev pub is_below : (path inner : String) → Bool
is_below path inner = string_starts_with inner (path & "/")

-- What the library of files promises.
pub record IsLawful (K : Disk) : Type 0 where
  pub created :
      (p : String) (fs : K.Files)
      → (K.create_directory p fs).0 ≡ true
      → K.is_directory p (K.create_directory p fs).1 ≡ true
  pub created_empty :
      (p q : String) (fs : K.Files)
      → K.is_directory p fs ≡ false
      → str_eq p q ≡ false
      → is_below p q ≡ true
      → K.is_there q (K.create_directory p fs).1 ≡ false
  pub create_keeps :
      (p q : String) (fs : K.Files)
      → is_below p q ≡ false
      → (K.is_directory q fs ≡ true → K.is_directory q (K.create_directory p fs).1 ≡ true)
        × (K.is_there q fs ≡ true → K.is_there q (K.create_directory p fs).1 ≡ true)
  pub write_keeps :
      (p t q : String) (fs : K.Files)
      → str_eq p q ≡ false
      → K.is_directory q fs ≡ true
      → K.is_directory q (K.write_file p t fs) ≡ true
  pub remove_keeps :
      (p q : String) (fs : K.Files)
      → str_eq p q ≡ false
      → is_below p q ≡ false
      → (K.is_directory q fs ≡ true → K.is_directory q (K.remove_directory_rec p fs) ≡ true)
        × (K.is_there q fs ≡ true → K.is_there q (K.remove_directory_rec p fs) ≡ true)

module _ {K : Disk} (lawful : IsLawful K) where
  open K use {Files, is_directory, is_there, create_directory, remove_directory_rec}

  -- What is there at a path stays there.
  record Stays (q : String) (fs fs' : Files) : Type 0 where
    directory : is_directory q fs ≡ true → is_directory q fs' ≡ true
    file : is_there q fs ≡ true → is_there q fs' ≡ true

  Stays-trans : {q : String} {a b c : Files} → Stays q a b → Stays q b c → Stays q a c
  Stays-trans f g = record {
    directory = λ h. g.directory (f.directory h);
    file = λ h. g.file (f.file h);
  }

  Stays-refl : (q : String) (fs : Files) → Stays q fs fs
  Stays-refl q fs = record { directory = λ h. h; file = λ h. h }

  Stays-create :
      (p q : String) (fs : Files) → is_below p q ≡ false → Stays q fs (create_directory p fs).1
  Stays-create p q fs out = record {
    directory = (lawful.create_keeps p q fs out).0;
    file = (lawful.create_keeps p q fs out).1;
  }

  Stays-remove :
      (q : String) (fs : Files)
      → str_eq "tmp" q ≡ false
      → is_below "tmp" q ≡ false
      → Stays q fs (remove_directory_rec "tmp" fs)
  Stays-remove q fs ne out = record {
    directory = (lawful.remove_keeps "tmp" q fs ne out).0;
    file = (lawful.remove_keeps "tmp" q fs ne out).1;
  }

  Stays-make_parts :
      (p q : String) (fs : Files)
      → is_below p q ≡ false
      → is_below (p & "/service") q ≡ false
      → is_below (p & "/mode") q ≡ false
      → Stays q fs (make_parts K p fs)
  unfolding make_parts
  Stays-make_parts p q fs a b c =
      let made = (create_directory p fs).1 in
      let service = (create_directory (p & "/service") made).1 in
      Stays-trans (Stays-create p q fs a) (
        Stays-trans (Stays-create (p & "/service") q made b)
          (Stays-create (p & "/mode") q service c))

  -- A core directory that could be made, or was there, is one.
  core_directory_lem :
      (p : String) (fs : Files)
      → ((q : String) → is_below p q ≡ false → Stays q fs (core_directory K p fs).1)
        × ((core_directory K p fs).0 ≡ true → is_directory p (core_directory K p fs).1 ≡ true)
  unfolding core_directory
  core_directory_lem p fs =
      if_holds
        (λ (r : Bool × Files).
          ((q : String) → is_below p q ≡ false → Stays q fs r.1)
          × (r.0 ≡ true → is_directory p r.1 ≡ true))
        (is_directory p fs) (true, fs) (create_directory p fs)
        (λ e. (λ q _. Stays-refl q fs, λ _. e))
        (λ _. (λ q out. Stays-create p q fs out, lawful.created p fs))

  -- The new tmp is an empty directory.
  abbrev IsFresh : Files → Type 0
  IsFresh fs =
      (is_directory "tmp" fs ≡ true)
      × ((q : String) → is_below "tmp" q ≡ true → is_there q fs ≡ false)

  created-IsFresh :
      (fs : Files)
      → is_directory "tmp" fs ≡ false
      → (create_directory "tmp" fs).0 ≡ true
      → IsFresh (create_directory "tmp" fs).1
  unfolding string_starts_with
  created-IsFresh fs gone made = (
    lawful.created "tmp" fs made,
    λ q below. elim (Bool-cases (str_eq "tmp" q)) [
      | inl e ↦
          let self : is_below "tmp" "tmp" ≡ true =
            subst (λ p. is_below "tmp" p ≡ true) (sym ((str_eq_iff "tmp" q).0 e)) below in
          absurd (cc self)
      | inr e ↦ lawful.created_empty "tmp" q fs gone e below
    ],
  )

  fresh_tmp_lem :
      (fs : Files)
      → ((q : String)
          → str_eq "tmp" q ≡ false
          → is_below "tmp" q ≡ false
          → Stays q fs (fresh_tmp K fs).1)
        × ((fresh_tmp K fs).0 ≡ true → IsFresh (fresh_tmp K fs).1)
  unfolding fresh_tmp
  fresh_tmp_lem fs =
      let P = λ (r : Bool × Files).
        ((q : String) → str_eq "tmp" q ≡ false → is_below "tmp" q ≡ false → Stays q fs r.1)
        × (r.0 ≡ true → IsFresh r.1) in
      let cleared = remove_directory_rec "tmp" fs in
      if_holds P (is_directory "tmp" fs)
        (if is_directory "tmp" cleared then (false, cleared) else create_directory "tmp" cleared)
        (create_directory "tmp" fs)
        (λ _.
          if_holds P (is_directory "tmp" cleared) (false, cleared) (create_directory "tmp" cleared)
            (λ _. (λ q ne out. Stays-remove q fs ne out, λ n. absurd (cc)))
            (λ e. (
              λ q ne out. Stays-trans (Stays-remove q fs ne out) (Stays-create "tmp" q cleared out),
              created-IsFresh cleared e,
            )))
        (λ e. (λ q ne out. Stays-create "tmp" q fs out, created-IsFresh fs e))

  prepare_config_lem :
      (default : String) (fs : Files)
      → (prepare_config K default fs).0 ≡ true
      → is_directory "config/core" (prepare_config K default fs).1 ≡ true
  unfolding prepare_config
  prepare_config_lem default fs =
      let parts = if is_directory "config" fs then fs else make_parts K "config" fs in
      let (made, core) = core_directory K "config/core" parts in
      let P = λ (r : Bool × Files). r.0 ≡ true → is_directory "config/core" r.1 ≡ true in
      let D = λ (fs : Files). is_directory "config/core" fs ≡ true in
      let written = K.write_file config_file default core in
      if_holds P made (true, (if is_there config_file core then core else written)) (false, core)
        (λ e _.
          let dir = (core_directory_lem "config/core" parts).1 e in
          if_holds D (is_there config_file core) core written (λ _. dir)
            (λ _. lawful.write_keeps config_file default "config/core" core refl dir))
        (λ _ n. absurd (cc))

  -- The directory of the configuration is not below one that is made for the assets.
  prepare_assets_lem :
      (fs : Files)
      → Stays "config/core" fs (prepare_assets K fs).1
        × ((prepare_assets K fs).0 ≡ true
            → is_directory "assets/core" (prepare_assets K fs).1 ≡ true)
  unfolding prepare_assets string_starts_with
  prepare_assets_lem fs =
      let parts = if is_directory "assets" fs then fs else make_parts K "assets" fs in
      let before =
        λ (q : String) (a : is_below "assets" q ≡ false) (b : is_below "assets/service" q ≡ false)
            (c : is_below "assets/mode" q ≡ false).
          if_holds (Stays q fs) (is_directory "assets" fs) fs (make_parts K "assets" fs)
            (λ _. Stays-refl q fs) (λ _. Stays-make_parts "assets" q fs a b c) in
      let (stays, made) = core_directory_lem "assets/core" parts in
      (Stays-trans (before "config/core" refl refl refl) (stays "config/core" refl), made)

  pub record IsReady (fs : Files) : Type 0 where
    pub config_core : is_directory "config/core" fs ≡ true
    pub assets_core : is_directory "assets/core" fs ≡ true
    pub config : K.load_file config_file fs ≡ true
    pub tmp : is_directory "tmp" fs ≡ true
    pub tmp_is_empty : (q : String) → is_below "tmp" q ≡ true → is_there q fs ≡ false

  all_made-IsReady :
      (default : String) (fs : Files)
      → let config = prepare_config K default fs in
        let assets = prepare_assets K config.1 in
        let tmp = fresh_tmp K assets.1 in
        config.0 ≡ true
        → assets.0 ≡ true
        → tmp.0 ≡ true
        → K.load_file config_file tmp.1 ≡ true
        → IsReady tmp.1
  unfolding string_starts_with
  all_made-IsReady default fs a b c l =
      let config = prepare_config K default fs in
      let assets = prepare_assets K config.1 in
      let core = prepare_config_lem default fs a in
      let (kept_core, made) = prepare_assets_lem config.1 in
      let (stays, fresh) = fresh_tmp_lem assets.1 in
      record {
        config_core = (Stays-trans kept_core (stays "config/core" refl refl)).directory core;
        assets_core = (stays "assets/core" refl refl).directory (made b);
        config = l;
        tmp = (fresh c).0;
        tmp_is_empty = (fresh c).1;
      }

  -- If setupDirectories does not end the process, it answers whether there was no directory config, and
  -- then config/core, assets/core and tmp are directories, the configuration file has been loaded, and
  -- nothing is below tmp, if the library of files keeps its promises.
  pub setup_directories-IsReady :
      (default : String) (fs : Files) {first : Bool}
      → (setup_directories K default fs).0 ≡ some first
      → (first ≡ not (is_directory "config" fs)) × IsReady (setup_directories K default fs).1
  unfolding setup_directories
  setup_directories-IsReady default fs {first} =
      let config = prepare_config K default fs in
      let assets = prepare_assets K config.1 in
      let tmp = fresh_tmp K assets.1 in
      let P = λ (r : Option Bool × Files).
        r.0 ≡ some first → (first ≡ not (is_directory "config" fs)) × IsReady r.1 in
      let done : Option Bool × Files = (some (not (is_directory "config" fs)), tmp.1) in
      let at_assets : Option Bool × Files =
        if tmp.0 && K.load_file config_file tmp.1 then done else (none, tmp.1) in
      let at_config : Option Bool × Files = if assets.0 then at_assets else (none, assets.1) in
      if_holds P config.0 at_config (none, config.1)
        (λ a.
          if_holds P assets.0 at_assets (none, assets.1)
            (λ b.
              if_holds P (tmp.0 && K.load_file config_file tmp.1) done (none, tmp.1)
                (λ c e.
                  (cc, all_made-IsReady default fs a b (ground (arith, c)) (ground (arith, c))))
                (λ _ e. absurd (cc)))
            (λ _ e. absurd (cc)))
        (λ _ e. absurd (cc))
