-- ===== src/Program/Arguments.antt =====
-- `parse_args` of src/main.rs.
use f2ido.Prelude.{◌≡◌, refl, Option, none, some, List, [], ◌∷◌, ◌++◌, bytes_eq, if◌then◌else◌}
use f2ido.Prelude.Text.{codes}
use f2ido.Ctaphid.Types.{Bytes}

pub record Args : Type 0 where
  pub pkcs11_module : Bytes
  pub token_label : Bytes
  pub pin_file : Option Bytes

abbrev pub default_args : Args
default_args = record {
  pkcs11_module = codes "/usr/lib/softhsm/libsofthsm2.so";
  token_label = codes "softfido";
  pin_file = none;
}

-- How `parse_args` ends: it returns, the process prints the usage and exits, or it panics.
pub data Parsed : Type 0 where
  parsed : Args → Parsed
  usage : Parsed
  invalid : Parsed

-- The loop over the arguments, `r` so far.
unfoldable pub parse_args_from : Args → List Bytes → Parsed
unfolding bytes_eq
parse_args_from r [] = parsed r
parse_args_from r (s ∷ []) = if bytes_eq s (codes "--help") then usage else invalid
parse_args_from r (s ∷ arg ∷ args) =
    let module_given = parse_args_from (record r { pkcs11_module = arg }) args in
    let label_given = parse_args_from (record r { token_label = arg }) args in
    let pin_given = parse_args_from (record r { pin_file = some arg }) args in
    if bytes_eq s (codes "--pkcs11-module")
    then module_given
    else if bytes_eq s (codes "--token-label")
    then label_given
    else if bytes_eq s (codes "--pin-file")
    then pin_given
    else if bytes_eq s (codes "--help")
    then usage
    else invalid

-- `parse_args`, on the arguments behind the name of the program
unfoldable pub parse_args : List Bytes → Parsed
unfolding parse_args_from
parse_args args = parse_args_from default_args args

-- The arguments that give these options.
abbrev pub pin_arguments : Option Bytes → List Bytes
pin_arguments none = []
pin_arguments (some file) = codes "--pin-file" ∷ file ∷ []

abbrev pub arguments : Args → List Bytes
arguments a =
    codes "--pkcs11-module"
    ∷ a.pkcs11_module
    ∷ codes "--token-label"
    ∷ a.token_label
    ∷ pin_arguments a.pin_file

-- The arguments that spell out given options, followed by any others, are parsed as the others are
-- from the given options on.
pub parse_args-arguments :
    (a : Args) (rest : List Bytes) → parse_args (arguments a ++ rest) ≡ parse_args_from a rest
unfolding parse_args bytes_eq
parse_args-arguments a rest = by_pin a.pkcs11_module a.token_label a.pin_file
  where
    by_pin :
        (m l : Bytes) (pin : Option Bytes)
        → parse_args
            (arguments (record { pkcs11_module = m; token_label = l; pin_file = pin }) ++ rest)
          ≡ parse_args_from (record { pkcs11_module = m; token_label = l; pin_file = pin }) rest
    by_pin m l none = refl
    by_pin m l (some file) = refl
