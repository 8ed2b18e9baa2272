-- ===== src/Base/Errors.antt =====
-- Errors as values. An error made by `fmt.Errorf` keeps the text of its format; the arguments that
-- are printed into it are left out. `wrapped` is `%w`, which `errors.As` sees through, and `opaque`
-- is `%v`, which it does not.
use Prim.Native.String.{String}
use sprout_go.Base.Int.{ℤ}

-- What `fmt.Fscanf` and `fmt.Fscanln` complain of.
pub data ScanFault : Type 0 where
  eof unexpected_newline expected_space newline_mismatch literal_mismatch : ScanFault
  expected_integer out_of_range expected_newline too_few_operands bad_verb : ScanFault

pub data Error : Type 0 where
  scan_fault : ScanFault → Error
  message : String → Error
  opaque : String → Error → Error
  wrapped : String → Error → Error
  -- UnsolicitedMessageError
  unsolicited : ℤ → Error
  -- Status, as an error
  status : ℤ → Error
  -- an error of the transport
  write_failure : Error
  -- an error of code that is not part of the repository
  foreign : String → Error
