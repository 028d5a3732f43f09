-- ===== src/Tests/Strings.antt =====
-- The string helpers and ParseOptions on concrete names.
use addr_tools.Prelude.{
  replicate, Bytes, bytes, last_index_byte, split_byte, ◌≡◌, refl, true, some, arith,
}
use addr_tools.Dnsutil.Strings.{equals_ascii_ignore_case, to_lower_ascii}
use addr_tools.Dnsutil.Strings.Folding.{to_lower_ascii_idem}
use addr_tools.Dnscheck.Options.{Options, no_options, parse_options}
use addr_tools.Dnscheck.Options.Consistency.{IsConsistent, parse_options-IsConsistent}
use addr_tools.Dnscheck.Options.Casing.{parse_options-to_lower}

to_lower_ascii_idem_example :
    to_lower_ascii (to_lower_ascii (bytes "aB-C")) ≡ to_lower_ascii (bytes "aB-C")
to_lower_ascii_idem_example = to_lower_ascii_idem (bytes "aB-C")

abbrev long_text : Bytes
long_text = replicate 300 7

abbrev read_options : Options
read_options = record no_options { bad_sig = true; random = bytes "1f" }

options_parsed : parse_options (bytes "x.badsig-1F.") ≡ some read_options
unfolding parse_options split_byte last_index_byte equals_ascii_ignore_case to_lower_ascii
options_parsed = refl

parse_options-IsConsistent_example : IsConsistent read_options
parse_options-IsConsistent_example =
    parse_options-IsConsistent (bytes "x.badsig-1F.") read_options options_parsed

parse_options-to_lower_example :
    parse_options (to_lower_ascii (bytes "BadSig-1F")) ≡ parse_options (bytes "BadSig-1F")
parse_options-to_lower_example = parse_options-to_lower (bytes "BadSig-1F") (omega arith)
