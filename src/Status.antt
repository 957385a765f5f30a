-- ===== src/Status.antt =====
-- The SMPP 3.4 command statuses (Table 5-2), as src/pyclasses.rs and src/outcome.rs use them.
-- `SmppError` is a fieldless enumeration: two of them are equal when their codes are.
pub mod Names
use siphon_smpp.Common.{
  ℕ, ◌/◌, ◌%◌, ◌^◌, String, Char, Bool, ◌||◌, Option, none, some, List, [], ◌∷◌, ◌==◌,
  if◌then◌else◌, str_eq, Result, ok, err,
}
use Prim.Native.String

pub data SmppError : Type 0 where
  esme_rok esme_rinvmsglen esme_rinvcmdlen esme_rinvcmdid esme_rinvbndsts esme_ralybnd : SmppError
  esme_rinvprtflg esme_rinvregdlvflg esme_rsyserr esme_rinvsrcadr esme_rinvdstadr : SmppError
  esme_rinvmsgid esme_rbindfail esme_rinvpaswd esme_rinvsysid esme_rcancelfail : SmppError
  esme_rreplacefail esme_rmsgqful esme_rinvsertyp esme_rinvnumdests esme_rinvdlname : SmppError
  esme_rinvdestflag esme_rinvsubrep esme_rinvesmclass esme_rcntsubdl esme_rsubmitfail : SmppError
  esme_rinvsrcton esme_rinvsrcnpi esme_rinvdstton esme_rinvdstnpi esme_rinvsystyp : SmppError
  esme_rinvrepflag esme_rinvnummsgs esme_rthrottled esme_rinvsched esme_rinvexpiry : SmppError
  esme_rinvdftmsgid esme_rx_t_appn esme_rx_p_appn esme_rx_r_appn esme_rqueryfail : SmppError
  esme_rinvoptparstream esme_roptparnotallwd esme_rinvparlen esme_rmissingoptparam : SmppError
  esme_rinvoptparamval esme_rdeliveryfailure esme_runknownerr : SmppError

-- `status as u32`.
abbrev pub code : SmppError → ℕ
code esme_rok = 0x0
code esme_rinvmsglen = 0x1
code esme_rinvcmdlen = 0x2
code esme_rinvcmdid = 0x3
code esme_rinvbndsts = 0x4
code esme_ralybnd = 0x5
code esme_rinvprtflg = 0x6
code esme_rinvregdlvflg = 0x7
code esme_rsyserr = 0x8
code esme_rinvsrcadr = 0xA
code esme_rinvdstadr = 0xB
code esme_rinvmsgid = 0xC
code esme_rbindfail = 0xD
code esme_rinvpaswd = 0xE
code esme_rinvsysid = 0xF
code esme_rcancelfail = 0x11
code esme_rreplacefail = 0x13
code esme_rmsgqful = 0x14
code esme_rinvsertyp = 0x15
code esme_rinvnumdests = 0x33
code esme_rinvdlname = 0x34
code esme_rinvdestflag = 0x40
code esme_rinvsubrep = 0x42
code esme_rinvesmclass = 0x43
code esme_rcntsubdl = 0x44
code esme_rsubmitfail = 0x45
code esme_rinvsrcton = 0x48
code esme_rinvsrcnpi = 0x49
code esme_rinvdstton = 0x50
code esme_rinvdstnpi = 0x51
code esme_rinvsystyp = 0x53
code esme_rinvrepflag = 0x54
code esme_rinvnummsgs = 0x55
code esme_rthrottled = 0x58
code esme_rinvsched = 0x61
code esme_rinvexpiry = 0x62
code esme_rinvdftmsgid = 0x63
code esme_rx_t_appn = 0x64
code esme_rx_p_appn = 0x65
code esme_rx_r_appn = 0x66
code esme_rqueryfail = 0x67
code esme_rinvoptparstream = 0xC0
code esme_roptparnotallwd = 0xC1
code esme_rinvparlen = 0xC2
code esme_rmissingoptparam = 0xC3
code esme_rinvoptparamval = 0xC4
code esme_rdeliveryfailure = 0xFE
code esme_runknownerr = 0xFF

-- `{status:?}`: the name of the variant.
pub debug_name : SmppError → String
debug_name esme_rok = "ESME_ROK"
debug_name esme_rinvmsglen = "ESME_RINVMSGLEN"
debug_name esme_rinvcmdlen = "ESME_RINVCMDLEN"
debug_name esme_rinvcmdid = "ESME_RINVCMDID"
debug_name esme_rinvbndsts = "ESME_RINVBNDSTS"
debug_name esme_ralybnd = "ESME_RALYBND"
debug_name esme_rinvprtflg = "ESME_RINVPRTFLG"
debug_name esme_rinvregdlvflg = "ESME_RINVREGDLVFLG"
debug_name esme_rsyserr = "ESME_RSYSERR"
debug_name esme_rinvsrcadr = "ESME_RINVSRCADR"
debug_name esme_rinvdstadr = "ESME_RINVDSTADR"
debug_name esme_rinvmsgid = "ESME_RINVMSGID"
debug_name esme_rbindfail = "ESME_RBINDFAIL"
debug_name esme_rinvpaswd = "ESME_RINVPASWD"
debug_name esme_rinvsysid = "ESME_RINVSYSID"
debug_name esme_rcancelfail = "ESME_RCANCELFAIL"
debug_name esme_rreplacefail = "ESME_RREPLACEFAIL"
debug_name esme_rmsgqful = "ESME_RMSGQFUL"
debug_name esme_rinvsertyp = "ESME_RINVSERTYP"
debug_name esme_rinvnumdests = "ESME_RINVNUMDESTS"
debug_name esme_rinvdlname = "ESME_RINVDLNAME"
debug_name esme_rinvdestflag = "ESME_RINVDESTFLAG"
debug_name esme_rinvsubrep = "ESME_RINVSUBREP"
debug_name esme_rinvesmclass = "ESME_RINVESMCLASS"
debug_name esme_rcntsubdl = "ESME_RCNTSUBDL"
debug_name esme_rsubmitfail = "ESME_RSUBMITFAIL"
debug_name esme_rinvsrcton = "ESME_RINVSRCTON"
debug_name esme_rinvsrcnpi = "ESME_RINVSRCNPI"
debug_name esme_rinvdstton = "ESME_RINVDSTTON"
debug_name esme_rinvdstnpi = "ESME_RINVDSTNPI"
debug_name esme_rinvsystyp = "ESME_RINVSYSTYP"
debug_name esme_rinvrepflag = "ESME_RINVREPFLAG"
debug_name esme_rinvnummsgs = "ESME_RINVNUMMSGS"
debug_name esme_rthrottled = "ESME_RTHROTTLED"
debug_name esme_rinvsched = "ESME_RINVSCHED"
debug_name esme_rinvexpiry = "ESME_RINVEXPIRY"
debug_name esme_rinvdftmsgid = "ESME_RINVDFTMSGID"
debug_name esme_rx_t_appn = "ESME_RX_T_APPN"
debug_name esme_rx_p_appn = "ESME_RX_P_APPN"
debug_name esme_rx_r_appn = "ESME_RX_R_APPN"
debug_name esme_rqueryfail = "ESME_RQUERYFAIL"
debug_name esme_rinvoptparstream = "ESME_RINVOPTPARSTREAM"
debug_name esme_roptparnotallwd = "ESME_ROPTPARNOTALLWD"
debug_name esme_rinvparlen = "ESME_RINVPARLEN"
debug_name esme_rmissingoptparam = "ESME_RMISSINGOPTPARAM"
debug_name esme_rinvoptparamval = "ESME_RINVOPTPARAMVAL"
debug_name esme_rdeliveryfailure = "ESME_RDELIVERYFAILURE"
debug_name esme_runknownerr = "ESME_RUNKNOWNERR"

abbrev pub status_table : List (String × SmppError)
status_table =
    ("ESME_ROK", esme_rok)
    ∷ ("ESME_RINVMSGLEN", esme_rinvmsglen)
    ∷ ("ESME_RINVCMDLEN", esme_rinvcmdlen)
    ∷ ("ESME_RINVCMDID", esme_rinvcmdid)
    ∷ ("ESME_RINVBNDSTS", esme_rinvbndsts)
    ∷ ("ESME_RALYBND", esme_ralybnd)
    ∷ ("ESME_RINVPRTFLG", esme_rinvprtflg)
    ∷ ("ESME_RINVREGDLVFLG", esme_rinvregdlvflg)
    ∷ ("ESME_RSYSERR", esme_rsyserr)
    ∷ ("ESME_RINVSRCADR", esme_rinvsrcadr)
    ∷ ("ESME_RINVDSTADR", esme_rinvdstadr)
    ∷ ("ESME_RINVMSGID", esme_rinvmsgid)
    ∷ ("ESME_RBINDFAIL", esme_rbindfail)
    ∷ ("ESME_RINVPASWD", esme_rinvpaswd)
    ∷ ("ESME_RINVSYSID", esme_rinvsysid)
    ∷ ("ESME_RCANCELFAIL", esme_rcancelfail)
    ∷ ("ESME_RREPLACEFAIL", esme_rreplacefail)
    ∷ ("ESME_RMSGQFUL", esme_rmsgqful)
    ∷ ("ESME_RINVSERTYP", esme_rinvsertyp)
    ∷ ("ESME_RINVNUMDESTS", esme_rinvnumdests)
    ∷ ("ESME_RINVDLNAME", esme_rinvdlname)
    ∷ ("ESME_RINVDESTFLAG", esme_rinvdestflag)
    ∷ ("ESME_RINVSUBREP", esme_rinvsubrep)
    ∷ ("ESME_RINVESMCLASS", esme_rinvesmclass)
    ∷ ("ESME_RCNTSUBDL", esme_rcntsubdl)
    ∷ ("ESME_RSUBMITFAIL", esme_rsubmitfail)
    ∷ ("ESME_RINVSRCTON", esme_rinvsrcton)
    ∷ ("ESME_RINVSRCNPI", esme_rinvsrcnpi)
    ∷ ("ESME_RINVDSTTON", esme_rinvdstton)
    ∷ ("ESME_RINVDSTNPI", esme_rinvdstnpi)
    ∷ ("ESME_RINVSYSTYP", esme_rinvsystyp)
    ∷ ("ESME_RINVREPFLAG", esme_rinvrepflag)
    ∷ ("ESME_RINVNUMMSGS", esme_rinvnummsgs)
    ∷ ("ESME_RTHROTTLED", esme_rthrottled)
    ∷ ("ESME_RINVSCHED", esme_rinvsched)
    ∷ ("ESME_RINVEXPIRY", esme_rinvexpiry)
    ∷ ("ESME_RINVDFTMSGID", esme_rinvdftmsgid)
    ∷ ("ESME_RX_T_APPN", esme_rx_t_appn)
    ∷ ("ESME_RX_P_APPN", esme_rx_p_appn)
    ∷ ("ESME_RX_R_APPN", esme_rx_r_appn)
    ∷ ("ESME_RQUERYFAIL", esme_rqueryfail)
    ∷ ("ESME_RINVOPTPARSTREAM", esme_rinvoptparstream)
    ∷ ("ESME_ROPTPARNOTALLWD", esme_roptparnotallwd)
    ∷ ("ESME_RINVPARLEN", esme_rinvparlen)
    ∷ ("ESME_RMISSINGOPTPARAM", esme_rmissingoptparam)
    ∷ ("ESME_RINVOPTPARAMVAL", esme_rinvoptparamval)
    ∷ ("ESME_RDELIVERYFAILURE", esme_rdeliveryfailure)
    ∷ ("ESME_RUNKNOWNERR", esme_runknownerr)
    ∷ []

infix 50 ◌is◌
abbrev pub ◌is◌ : SmppError → SmppError → Bool
a is b = code a == code b

pub data StatusError : Type 0 where
  unknown_status : String → StatusError

find_status : String → List (String × SmppError) → Result StatusError SmppError
find_status s [] = err (unknown_status s)
find_status s ((name, e) ∷ rest) = if str_eq s name then ok e else find_status s rest

-- The status that a script names; an unknown spelling is a `ValueError`.
unfoldable pub parse_smpp_status : String → Result StatusError SmppError
unfolding find_status
parse_smpp_status s = find_status s status_table

abbrev hex_digit : ℕ → Char
hex_digit d =
    if d == 0
    then "0"
    else if d == 1
    then "1"
    else if d == 2
    then "2"
    else if d == 3
    then "3"
    else if d == 4
    then "4"
    else if d == 5
    then "5"
    else if d == 6
    then "6"
    else if d == 7
    then "7"
    else if d == 8
    then "8"
    else if d == 9
    then "9"
    else if d == 10
    then "A"
    else if d == 11
    then "B"
    else if d == 12
    then "C"
    else if d == 13
    then "D"
    else if d == 14
    then "E"
    else "F"

-- Digit `k` of a number, counted from the right.
nibble : ℕ → ℕ → ℕ
nibble k n = n / 16 ^ k % 16

-- `0x{status:08X}` of a `u32`.
hex : ℕ → String
unfolding nibble
hex n = String.◌∷◌ "0" (
    String.◌∷◌ "x"
      (digit 7 (digit 6 (digit 5 (digit 4 (digit 3 (digit 2 (digit 1 (digit 0 String.[])))))))))
  where
    digit : ℕ → String → String
    digit k s = String.◌∷◌ (hex_digit (nibble k n)) s

-- The codec's decoding of a number into a status is a parameter.
module _ (from_command_status : ℕ → SmppError) where
  unfoldable pub status_name : ℕ → String
  unfolding debug_name hex
  status_name status =
      let known = from_command_status status in
      if code known == status then debug_name known else hex status

abbrev pub esme_rthrottled_code : ℕ
esme_rthrottled_code = 0x58

abbrev pub esme_rmsgqful_code : ℕ
esme_rmsgqful_code = 0x14

-- The two statuses that ask the sender to slow down.
unfoldable pub is_throttle : ℕ → Bool
is_throttle status = status == esme_rthrottled_code || status == esme_rmsgqful_code
