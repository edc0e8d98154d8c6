-- ===== src/Direttore/Start.antt =====
-- src/direttore.c: the start of `main` up to the processes that it starts, and its end; and how
-- src/operatore.c and src/utente.c take their settings. The path of the settings goes from the
-- command line through the shared memory, whose bytes are as an earlier process may have left them.
use poste_italiane_simulatio.Prelude.{
  ◌<◌, ◌≤◌, ◌≡◌, ◌≢◌, refl, ap, ◌∙◌, List, [], ◌∷◌, ◌++◌, All, Option, none, some, Outcome, ok,
  fault, ◌>>=◌, modify, replicate, length, if◌then◌else◌, arith,
}
use poste_italiane_simulatio.Config.Defs.{PosteConfig}
use poste_italiane_simulatio.Config.Scan.{Bytes, codes, str_eq, c_string, break}
use poste_italiane_simulatio.Config.Load.{load_config, open_config}

-- `config_file`, from the command line without the program's name.
unfoldable pub config_argument : List Bytes → Option Bytes
config_argument [] = none
config_argument (option ∷ []) = none
config_argument (option ∷ value ∷ []) =
    if str_eq option (codes "--config") then some value else none
config_argument (option ∷ value ∷ more ∷ rest) = none

-- The loop over `configuration_file[i]`, which ends with the array or the path.
unfoldable pub copy_path : (configuration_file path : Bytes) → Bytes
copy_path [] path = []
copy_path (b ∷ bs) [] = b ∷ bs
copy_path (b ∷ bs) (c ∷ cs) = c ∷ copy_path bs cs

-- With the NUL at the path's length behind it, wherever that is.
unfoldable pub store_path : Option Bytes → (configuration_file : Bytes) → Outcome Bytes
unfolding copy_path
store_path none file = ok file
store_path (some path) file = modify (copy_path file path) (length path) (λ _. 0)

-- `load_config(config_file)` and the copy: the settings and the path in the shared memory, or none
-- where the process exits.
abbrev stored : Option Bytes → Bytes → Option PosteConfig → Outcome (Option (PosteConfig × Bytes))
stored path file none = ok none
stored path file (some g) = store_path path file >>= λ file'. ok (some (g, file'))

unfoldable pub configure :
    (Bytes → Option Bytes)
    → PosteConfig
    → List Bytes
    → (configuration_file : Bytes) → Outcome (Option (PosteConfig × Bytes))
unfolding config_argument store_path
configure files g args file =
    stored (config_argument args) file (load_config files g (config_argument args))

-- `load_config(shared_stats->configuration_file)` of an operator or a user.
unfoldable pub child_config : (Bytes → Option Bytes) → PosteConfig → Bytes → Option PosteConfig
child_config files g file = load_config files g (some (c_string file))

-- Fresh shared memory holds zeros.
abbrev pub fresh_path : Bytes
fresh_path = replicate 256 0

abbrev pub NoNul : Bytes → Type 0
NoNul = All (λ c. c ≢ 0)

store_room :
    (file path : Bytes)
    → length path < length file
    → (rest : Bytes) × (modify (copy_path file path) (length path) (λ _. 0) ≡ ok (path ++ 0 ∷ rest))
unfolding copy_path
store_room [] path h = elim h [ ]
store_room (b ∷ bs) [] h = (bs, refl)
store_room (b ∷ bs) (c ∷ cs) h = let (rest, e) = store_room bs cs (omega arith) in (rest, rw e refl)

store_overrun :
    (file path : Bytes)
    → length file ≤ length path
    → modify (copy_path file path) (length path) (λ _. 0) ≡ fault
unfolding copy_path
store_overrun [] path h = refl
store_overrun (b ∷ bs) [] h = absurd (omega arith)
store_overrun (b ∷ bs) (c ∷ cs) h = rw (store_overrun bs cs (omega arith)) refl

c_string-path : (path rest : Bytes) → NoNul path → c_string (path ++ 0 ∷ rest) ≡ path
unfolding c_string break
c_string-path [] rest h = refl
c_string-path (c ∷ cs) rest h = ground (arith, c_string-path cs rest h.1)

-- A path that the array has room for with its NUL; without a path, an array that holds none yet.
abbrev pub FitsPath : Option Bytes → Bytes → Type 0
FitsPath none file = c_string file ≡ []
FitsPath (some path) file = NoNul path × (length path < length file)

load_empty :
    (files : Bytes → Option Bytes) (g : PosteConfig) → load_config files g (some []) ≡ some g
unfolding load_config open_config
load_empty files g = refl

some-injective : {a b : PosteConfig} → some a ≡ some b → a ≡ b
some-injective e = cc

stored-child :
    (files : Bytes → Option Bytes) (g g' : PosteConfig) (o : Option Bytes) (file : Bytes)
    → load_config files g o ≡ some g'
    → FitsPath o file
    → (file' : Bytes) × (stored o file (load_config files g o) ≡ ok (some (g', file')))
      × (child_config files g file' ≡ some g')
unfolding store_path child_config
stored-child files g g' none file e fits =
    let same : g ≡ g' = some-injective (unfold load_config in e) in
    (
      file,
      rw e refl,
      ap (λ p. load_config files g (some p)) fits ∙ load_empty files g ∙ ap some same,
    )
stored-child files g g' (some path) file e fits =
    let (rest, e') = store_room file path fits.1 in
    (
      path ++ 0 ∷ rest,
      rw (e, e') refl,
      ap (λ p. load_config files g (some p)) (c_string-path path rest fits.0) ∙ e,
    )

-- The settings that the director starts with are those of every operator and user: if `load_config`
-- returns, the path fits into the array of the shared memory with its NUL, or without
-- `--config` that array names no file yet, and the files stay the same, the copy is made without a
-- fault, and `load_config` on it gives the same settings, from the same defaults.
pub configure-child_config :
    (files : Bytes → Option Bytes) (g g' : PosteConfig) (args : List Bytes) (file : Bytes)
    → load_config files g (config_argument args) ≡ some g'
    → FitsPath (config_argument args) file
    → (file' : Bytes) × (configure files g args file ≡ ok (some (g', file')))
      × (child_config files g file' ≡ some g')
unfolding configure
configure-child_config files g g' args file e fits =
    stored-child files g g' (config_argument args) file e fits
