-- ===== src/Config/Valid.antt =====
-- The ranges that src/systems/config.c promises for the settings, whatever the file says.
use mathlib.Core.Path.{subst}
use mathlib.Core.Option.{some-injective}
use poste_italiane_simulatio.Prelude.{
  ℕ, zero, suc, ◌<◌, ◌^◌, ◌≡◌, ◌≢◌, ◌↔◌, [], ◌∷◌, Option, none, some, length, arith, IsNat32,
}
use poste_italiane_simulatio.Config.Defs.{PosteConfig}
use poste_italiane_simulatio.Config.Scan.{Bytes, fgets, strip_comment, c_string, strtok}
use poste_italiane_simulatio.Config.Numbers.{atoi, atol, signed_long, skip_spaces}
use poste_italiane_simulatio.Config.Load.{
  if_positive, if_nonnegative, if_positive_long, apply_setting, apply_value, apply_key,
  process_line, unless_eof, load_lines, load_file, load_opened, open_config, load_config,
}

abbrev pub IsPositive : ℕ → Type 0
IsPositive x = (0 < x) × (x < 2 ^ 31)

-- Each setting is a number of its type, and above zero where the reader asks for that.
pub record IsValid (g : PosteConfig) : Type 0 where
  pub operators : IsPositive g.num_operators
  pub users : IsPositive g.num_users
  pub worker_seats : IsPositive g.num_worker_seats
  pub duration : IsPositive g.sim_duration
  pub serv_min : IsNat32 g.p_serv_min
  pub serv_max : IsNat32 g.p_serv_max
  pub minute : (0 < g.minute_duration) × (g.minute_duration < 2 ^ 63)
  pub shift_open : IsNat32 g.worker_shift_open
  pub shift_close : IsNat32 g.worker_shift_close
  pub explode : IsNat32 g.explode_max
  pub n_requests : IsPositive g.max_n_requests
  pub pause : IsPositive g.nof_pause

signed_long-lt : (s : Bytes) → signed_long s < 2 ^ 64
unfolding signed_long
signed_long-lt [] = omega arith
signed_long-lt (c ∷ cs) = ground arith

pub atol-lt : (s : Bytes) → atol s < 2 ^ 64
unfolding atol
atol-lt s = signed_long-lt (skip_spaces s)

pub atoi-lt : (s : Bytes) → atoi s < 2 ^ 32
unfolding atoi
atoi-lt s = omega arith

if_positive-IsPositive :
    (s : Bytes) (old : ℕ) → IsPositive old → IsPositive (if_positive (atoi s) old)
unfolding if_positive
if_positive-IsPositive s old h = ground (arith, atoi-lt s)

if_nonnegative-IsNat32 : (s : Bytes) (old : ℕ) → IsNat32 old → IsNat32 (if_nonnegative (atoi s) old)
unfolding if_nonnegative
if_nonnegative-IsNat32 s old h = ground (arith, atoi-lt s)

if_positive_long-bounds :
    (s : Bytes) (old : ℕ)
    → (0 < old) × (old < 2 ^ 63)
    → (0 < if_positive_long (atol s) old) × (if_positive_long (atol s) old < 2 ^ 63)
unfolding if_positive_long
if_positive_long-bounds s old h = ground (arith, atol-lt s)

apply_setting-IsValid :
    {g : PosteConfig} (key val : Bytes) → IsValid g → IsValid (apply_setting g key val)
unfolding apply_setting
apply_setting-IsValid {g} key val v = ground (
  arith,
  if_positive-IsPositive val g.num_operators,
  if_positive-IsPositive val g.num_users,
  if_positive-IsPositive val g.num_worker_seats,
  if_positive-IsPositive val g.sim_duration,
  if_nonnegative-IsNat32 val g.p_serv_min,
  if_nonnegative-IsNat32 val g.p_serv_max,
  if_positive_long-bounds val g.minute_duration,
  if_nonnegative-IsNat32 val g.worker_shift_open,
  if_nonnegative-IsNat32 val g.worker_shift_close,
  if_nonnegative-IsNat32 val g.explode_max,
  if_positive-IsPositive val g.max_n_requests,
  if_positive-IsPositive val g.nof_pause,
)

apply_value-IsValid :
    {g : PosteConfig} (key : Bytes) (val : Option (Bytes × Bytes))
    → IsValid g
    → IsValid (apply_value g key val)
unfolding apply_value
apply_value-IsValid key none v = v
apply_value-IsValid key (some (val, rest)) v = apply_setting-IsValid key val v

apply_key-IsValid :
    {g : PosteConfig} (found : Option (Bytes × Bytes)) → IsValid g → IsValid (apply_key g found)
unfolding apply_key
apply_key-IsValid none v = v
apply_key-IsValid (some (key, rest)) v = apply_value-IsValid key (strtok rest) v

process_line-IsValid : {g : PosteConfig} (line : Bytes) → IsValid g → IsValid (process_line g line)
unfolding process_line
process_line-IsValid line v = apply_key-IsValid (strtok (strip_comment (c_string line))) v

unless_eof-IsValid :
    {g h : PosteConfig} (line : Bytes) → IsValid g → IsValid h → IsValid (unless_eof line g h)
unless_eof-IsValid [] v w = v
unless_eof-IsValid (_ ∷ _) v w = w

load_lines-IsValid :
    (fuel buffer : ℕ) (g : PosteConfig) (file : Bytes)
    → IsValid g
    → IsValid (load_lines fuel buffer g file)
unfolding load_lines
load_lines-IsValid zero buffer g file v = v
load_lines-IsValid (suc fuel) buffer g file v =
    let line = (fgets buffer file).0 in
    unless_eof-IsValid line v (
      load_lines-IsValid fuel buffer (process_line g line) (fgets buffer file).1
        (process_line-IsValid line v))

load_file-IsValid : {g : PosteConfig} (file : Bytes) → IsValid g → IsValid (load_file g file)
unfolding load_file
load_file-IsValid {g} file v = load_lines-IsValid (suc (length file)) 127 g file v

open_config-none :
    (files : Bytes → Option Bytes) (g : PosteConfig) (path : Bytes)
    → (open_config files g path ≡ none) ↔ ((path ≢ []) × (files path ≡ none))
unfolding open_config
open_config-none files g [] = ground arith
open_config-none files g (c ∷ path) = ground arith

load_opened-IsValid :
    {g h : PosteConfig} (opened : Option Bytes)
    → IsValid g
    → load_opened g opened ≡ some h
    → IsValid h
load_opened-IsValid none v e = cc
load_opened-IsValid (some file) v e =
    subst IsValid (some-injective _ _ e) (load_file-IsValid file v)

open_config-IsValid :
    {g h : PosteConfig} (files : Bytes → Option Bytes) (path : Bytes)
    → IsValid g
    → open_config files g path ≡ some h
    → IsValid h
unfolding open_config
open_config-IsValid files [] v e = subst IsValid (some-injective _ _ e) v
open_config-IsValid files (c ∷ path) v e = load_opened-IsValid (files (c ∷ path)) v e

-- A call of `load_config` with a path ends the process exactly when the path is not empty and the
-- file cannot be opened; if it returns, every setting is in its range, provided that they all were
-- before the call: counts, durations and the request limit above zero, and no number negative.
pub load_config-IsValid :
    (files : Bytes → Option Bytes) (g : PosteConfig) (path : Bytes)
    → IsValid g
    → ((load_config files g (some path) ≡ none) ↔ ((path ≢ []) × (files path ≡ none)))
      × ((h : PosteConfig) → load_config files g (some path) ≡ some h → IsValid h)
unfolding load_config
load_config-IsValid files g path v =
    (open_config-none files g path, λ h e. open_config-IsValid files path v e)
