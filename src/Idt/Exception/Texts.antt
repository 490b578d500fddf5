-- ===== src/Idt/Exception/Texts.antt =====
-- src/kernel/interrupts.c (`exception_handler`): its formats, and the calls of `panic` in its switch.
-- `panics` are the cases of the switch from 0 on, in order.
use ktux.Base.{ℕ, Bool, true, false, List, [], ◌∷◌, ◌==◌, if◌then◌else◌, get_or}

abbrev pub int_unhandled : ℕ
int_unhandled = 0x100

abbrev pub exception_format : List ℕ
exception_format =
    0x0A ∷ b'u' ∷ b'n' ∷ b'h' ∷ b'a' ∷ b'n' ∷ b'd' ∷ b'l' ∷ b'e' ∷ b'd' ∷ b' ' ∷ b'e' ∷ b'x' ∷ b'c'
    ∷ b'e' ∷ b'p' ∷ b't' ∷ b'i' ∷ b'o' ∷ b'n' ∷ b' ' ∷ b'%' ∷ b'd' ∷ b' ' ∷ b'a' ∷ b't' ∷ b' '
    ∷ b'%' ∷ b'0' ∷ b'4' ∷ b'X' ∷ b':' ∷ b'%' ∷ b'0' ∷ b'8' ∷ b'X' ∷ 0x0A ∷ []

abbrev pub general_format : List ℕ
general_format =
    b'E' ∷ b'A' ∷ b'X' ∷ b'=' ∷ b'%' ∷ b'0' ∷ b'8' ∷ b'X' ∷ b' ' ∷ b'E' ∷ b'B' ∷ b'X' ∷ b'=' ∷ b'%'
    ∷ b'0' ∷ b'8' ∷ b'X' ∷ b' ' ∷ b'E' ∷ b'C' ∷ b'X' ∷ b'=' ∷ b'%' ∷ b'0' ∷ b'8' ∷ b'X' ∷ b' '
    ∷ b'E' ∷ b'D' ∷ b'X' ∷ b'=' ∷ b'%' ∷ b'0' ∷ b'8' ∷ b'X' ∷ 0x0A ∷ []

abbrev pub index_format : List ℕ
index_format =
    b'E' ∷ b'S' ∷ b'I' ∷ b'=' ∷ b'%' ∷ b'0' ∷ b'8' ∷ b'X' ∷ b' ' ∷ b'E' ∷ b'D' ∷ b'I' ∷ b'=' ∷ b'%'
    ∷ b'0' ∷ b'8' ∷ b'X' ∷ b' ' ∷ b'E' ∷ b'B' ∷ b'P' ∷ b'=' ∷ b'%' ∷ b'0' ∷ b'8' ∷ b'X' ∷ b' '
    ∷ b'E' ∷ b'S' ∷ b'P' ∷ b'=' ∷ b'%' ∷ b'0' ∷ b'8' ∷ b'X' ∷ 0x0A ∷ []

abbrev pub segment_format : List ℕ
segment_format =
    b' ' ∷ b'D' ∷ b'S' ∷ b'=' ∷ b'%' ∷ b'0' ∷ b'4' ∷ b'X' ∷ b' ' ∷ b' ' ∷ b'E' ∷ b'S' ∷ b'=' ∷ b'%'
    ∷ b'0' ∷ b'4' ∷ b'X' ∷ b' ' ∷ b' ' ∷ b'F' ∷ b'S' ∷ b'=' ∷ b'%' ∷ b'0' ∷ b'4' ∷ b'X' ∷ b' '
    ∷ b' ' ∷ b'G' ∷ b'S' ∷ b'=' ∷ b'%' ∷ b'0' ∷ b'4' ∷ b'X' ∷ b' ' ∷ b' ' ∷ []

abbrev pub eflags_format : List ℕ
eflags_format =
    b'E' ∷ b'F' ∷ b'L' ∷ b'A' ∷ b'G' ∷ b'S' ∷ b'=' ∷ b'%' ∷ b'0' ∷ b'8' ∷ b'X' ∷ 0x0A ∷ []

abbrev pub stack_format : List ℕ
stack_format = b'S' ∷ b'T' ∷ b'A' ∷ b'C' ∷ b'K' ∷ b':' ∷ 0x0A ∷ []

abbrev pub word_format : List ℕ
word_format =
    b'0' ∷ b'x' ∷ b'%' ∷ b'0' ∷ b'8' ∷ b'X' ∷ b' ' ∷ b'=' ∷ b' ' ∷ b'%' ∷ b'0' ∷ b'8' ∷ b'X' ∷ []

abbrev pub tos_format : List ℕ
tos_format =
    b' ' ∷ b'<' ∷ b'=' ∷ b'=' ∷ b'=' ∷ b' ' ∷ b'[' ∷ b' ' ∷ b'T' ∷ b'O' ∷ b'S' ∷ b' ' ∷ b']' ∷ []

unfoldable pub panics : List (Bool × List ℕ)
panics =
    (
      false,
      b'k' ∷ b'e' ∷ b'r' ∷ b'n' ∷ b'e' ∷ b'l' ∷ b' ' ∷ b'p' ∷ b'a' ∷ b'n' ∷ b'i' ∷ b'c' ∷ b':'
          ∷ b' ' ∷ b'd' ∷ b'i' ∷ b'v' ∷ b'i' ∷ b'd' ∷ b'e' ∷ b' ' ∷ b'b' ∷ b'y' ∷ b' ' ∷ b'z' ∷ b'e'
          ∷ b'r' ∷ b'o' ∷ b' ' ∷ b'e' ∷ b'r' ∷ b'r' ∷ b'o' ∷ b'r' ∷ b'!' ∷ [],
    )
    ∷ (
      false,
      b'k' ∷ b'e' ∷ b'r' ∷ b'n' ∷ b'e' ∷ b'l' ∷ b' ' ∷ b'p' ∷ b'a' ∷ b'n' ∷ b'i' ∷ b'c' ∷ b':'
          ∷ b' ' ∷ b'd' ∷ b'e' ∷ b'b' ∷ b'u' ∷ b'g' ∷ b' ' ∷ b'e' ∷ b'r' ∷ b'r' ∷ b'o' ∷ b'r' ∷ b'!'
          ∷ [],
    )
    ∷ (
      false,
      b'k' ∷ b'e' ∷ b'r' ∷ b'n' ∷ b'e' ∷ b'l' ∷ b' ' ∷ b'p' ∷ b'a' ∷ b'n' ∷ b'i' ∷ b'c' ∷ b':'
          ∷ b' ' ∷ b'N' ∷ b'M' ∷ b'I' ∷ b' ' ∷ b'i' ∷ b'n' ∷ b't' ∷ b'e' ∷ b'r' ∷ b'r' ∷ b'u' ∷ b'p'
          ∷ b't' ∷ b'!' ∷ [],
    )
    ∷ (
      false,
      b'k' ∷ b'e' ∷ b'r' ∷ b'n' ∷ b'e' ∷ b'l' ∷ b' ' ∷ b'p' ∷ b'a' ∷ b'n' ∷ b'i' ∷ b'c' ∷ b':'
          ∷ b' ' ∷ b'b' ∷ b'r' ∷ b'e' ∷ b'a' ∷ b'k' ∷ b'p' ∷ b'o' ∷ b'i' ∷ b'n' ∷ b't' ∷ b' ' ∷ b'r'
          ∷ b'e' ∷ b'a' ∷ b'c' ∷ b'h' ∷ b'e' ∷ b'd' ∷ b'!' ∷ [],
    )
    ∷ (
      false,
      b'k' ∷ b'e' ∷ b'r' ∷ b'n' ∷ b'e' ∷ b'l' ∷ b' ' ∷ b'p' ∷ b'a' ∷ b'n' ∷ b'i' ∷ b'c' ∷ b':'
          ∷ b' ' ∷ b'o' ∷ b'v' ∷ b'e' ∷ b'r' ∷ b'f' ∷ b'l' ∷ b'o' ∷ b'w' ∷ b'!' ∷ [],
    )
    ∷ (
      true,
      b'k' ∷ b'e' ∷ b'r' ∷ b'n' ∷ b'e' ∷ b'l' ∷ b' ' ∷ b'p' ∷ b'a' ∷ b'n' ∷ b'i' ∷ b'c' ∷ b':'
          ∷ b' ' ∷ b'b' ∷ b'o' ∷ b'u' ∷ b'n' ∷ b'd' ∷ b' ' ∷ b'r' ∷ b'a' ∷ b'n' ∷ b'g' ∷ b'e' ∷ b' '
          ∷ b'e' ∷ b'x' ∷ b'c' ∷ b'e' ∷ b'e' ∷ b'd' ∷ b'e' ∷ b'd' ∷ b'!' ∷ [],
    )
    ∷ (
      true,
      b'k' ∷ b'e' ∷ b'r' ∷ b'n' ∷ b'e' ∷ b'l' ∷ b' ' ∷ b'p' ∷ b'a' ∷ b'n' ∷ b'i' ∷ b'c' ∷ b':'
          ∷ b' ' ∷ b'i' ∷ b'n' ∷ b'v' ∷ b'a' ∷ b'l' ∷ b'i' ∷ b'd' ∷ b' ' ∷ b'o' ∷ b'p' ∷ b'c' ∷ b'o'
          ∷ b'd' ∷ b'e' ∷ b'!' ∷ [],
    )
    ∷ (
      true,
      b'k' ∷ b'e' ∷ b'r' ∷ b'n' ∷ b'e' ∷ b'l' ∷ b' ' ∷ b'p' ∷ b'a' ∷ b'n' ∷ b'i' ∷ b'c' ∷ b':'
          ∷ b' ' ∷ b'd' ∷ b'e' ∷ b'v' ∷ b'i' ∷ b'c' ∷ b'e' ∷ b' ' ∷ b'n' ∷ b'o' ∷ b't' ∷ b' ' ∷ b'a'
          ∷ b'v' ∷ b'a' ∷ b'i' ∷ b'l' ∷ b'a' ∷ b'b' ∷ b'l' ∷ b'e' ∷ b'!' ∷ [],
    )
    ∷ (
      true,
      b'k' ∷ b'e' ∷ b'r' ∷ b'n' ∷ b'e' ∷ b'l' ∷ b' ' ∷ b'p' ∷ b'a' ∷ b'n' ∷ b'i' ∷ b'c' ∷ b':'
          ∷ b' ' ∷ b'd' ∷ b'o' ∷ b'u' ∷ b'b' ∷ b'l' ∷ b'e' ∷ b' ' ∷ b'f' ∷ b'a' ∷ b'u' ∷ b'l' ∷ b't'
          ∷ b'!' ∷ [],
    )
    ∷ (
      false,
      b'k' ∷ b'e' ∷ b'r' ∷ b'n' ∷ b'e' ∷ b'l' ∷ b' ' ∷ b'p' ∷ b'a' ∷ b'n' ∷ b'i' ∷ b'c' ∷ b':'
          ∷ b' ' ∷ b'c' ∷ b'o' ∷ b'p' ∷ b'r' ∷ b'o' ∷ b'c' ∷ b'e' ∷ b's' ∷ b's' ∷ b'o' ∷ b'r' ∷ b' '
          ∷ b's' ∷ b'e' ∷ b'g' ∷ b'm' ∷ b'e' ∷ b'n' ∷ b't' ∷ b' ' ∷ b'o' ∷ b'v' ∷ b'e' ∷ b'r' ∷ b'r'
          ∷ b'u' ∷ b'n' ∷ b'!' ∷ [],
    )
    ∷ (
      false,
      b'k' ∷ b'e' ∷ b'r' ∷ b'n' ∷ b'e' ∷ b'l' ∷ b' ' ∷ b'p' ∷ b'a' ∷ b'n' ∷ b'i' ∷ b'c' ∷ b':'
          ∷ b' ' ∷ b'i' ∷ b'n' ∷ b'v' ∷ b'a' ∷ b'l' ∷ b'i' ∷ b'd' ∷ b' ' ∷ b't' ∷ b's' ∷ b's' ∷ b'!'
          ∷ [],
    )
    ∷ (
      false,
      b'k' ∷ b'e' ∷ b'r' ∷ b'n' ∷ b'e' ∷ b'l' ∷ b' ' ∷ b'p' ∷ b'a' ∷ b'n' ∷ b'i' ∷ b'c' ∷ b':'
          ∷ b' ' ∷ b's' ∷ b'e' ∷ b'g' ∷ b'm' ∷ b'e' ∷ b'n' ∷ b't' ∷ b' ' ∷ b'n' ∷ b'o' ∷ b't' ∷ b' '
          ∷ b'p' ∷ b'r' ∷ b'e' ∷ b's' ∷ b'e' ∷ b'n' ∷ b't' ∷ b'!' ∷ [],
    )
    ∷ (
      false,
      b'k' ∷ b'e' ∷ b'r' ∷ b'n' ∷ b'e' ∷ b'l' ∷ b' ' ∷ b'p' ∷ b'a' ∷ b'n' ∷ b'i' ∷ b'c' ∷ b':'
          ∷ b' ' ∷ b's' ∷ b't' ∷ b'a' ∷ b'c' ∷ b'k' ∷ b' ' ∷ b's' ∷ b'e' ∷ b'g' ∷ b'm' ∷ b'e' ∷ b'n'
          ∷ b't' ∷ b' ' ∷ b'f' ∷ b'a' ∷ b'u' ∷ b'l' ∷ b't' ∷ b'!' ∷ [],
    )
    ∷ (
      false,
      b'k' ∷ b'e' ∷ b'r' ∷ b'n' ∷ b'e' ∷ b'l' ∷ b' ' ∷ b'p' ∷ b'a' ∷ b'n' ∷ b'i' ∷ b'c' ∷ b':'
          ∷ b' ' ∷ b'g' ∷ b'e' ∷ b'n' ∷ b'e' ∷ b'r' ∷ b'a' ∷ b'l' ∷ b' ' ∷ b'p' ∷ b'r' ∷ b'o' ∷ b't'
          ∷ b'e' ∷ b'c' ∷ b't' ∷ b'i' ∷ b'o' ∷ b'n' ∷ b' ' ∷ b'f' ∷ b'a' ∷ b'u' ∷ b'l' ∷ b't' ∷ b'!'
          ∷ [],
    )
    ∷ (
      false,
      b'k' ∷ b'e' ∷ b'r' ∷ b'n' ∷ b'e' ∷ b'l' ∷ b' ' ∷ b'p' ∷ b'a' ∷ b'n' ∷ b'i' ∷ b'c' ∷ b':'
          ∷ b' ' ∷ b'p' ∷ b'a' ∷ b'g' ∷ b'e' ∷ b' ' ∷ b'f' ∷ b'a' ∷ b'u' ∷ b'l' ∷ b't' ∷ [],
    )
    ∷ (
      true,
      b'k' ∷ b'e' ∷ b'r' ∷ b'n' ∷ b'e' ∷ b'l' ∷ b' ' ∷ b'p' ∷ b'a' ∷ b'n' ∷ b'i' ∷ b'c' ∷ b':'
          ∷ b' ' ∷ b'i' ∷ b'n' ∷ b't' ∷ b'e' ∷ b'l' ∷ b' ' ∷ b'r' ∷ b'e' ∷ b's' ∷ b'e' ∷ b'r' ∷ b'v'
          ∷ b'e' ∷ b'r' ∷ b'e' ∷ b'd' ∷ b' ' ∷ b'i' ∷ b'n' ∷ b't' ∷ b'e' ∷ b'r' ∷ b'r' ∷ b'u' ∷ b'p'
          ∷ b't' ∷ b' ' ∷ b'c' ∷ b'a' ∷ b'l' ∷ b'l' ∷ b'e' ∷ b'd' ∷ b'!' ∷ [],
    )
    ∷ (
      false,
      b'k' ∷ b'e' ∷ b'r' ∷ b'n' ∷ b'e' ∷ b'l' ∷ b' ' ∷ b'p' ∷ b'a' ∷ b'n' ∷ b'i' ∷ b'c' ∷ b':'
          ∷ b' ' ∷ b'f' ∷ b'p' ∷ b'u' ∷ b' ' ∷ b'f' ∷ b'l' ∷ b'o' ∷ b'a' ∷ b't' ∷ b'i' ∷ b'n' ∷ b'g'
          ∷ b'-' ∷ b'p' ∷ b'o' ∷ b'i' ∷ b'n' ∷ b't' ∷ b' ' ∷ b'e' ∷ b'r' ∷ b'r' ∷ b'o' ∷ b'r' ∷ [],
    )
    ∷ (
      false,
      b'k' ∷ b'e' ∷ b'r' ∷ b'n' ∷ b'e' ∷ b'l' ∷ b' ' ∷ b'p' ∷ b'a' ∷ b'n' ∷ b'i' ∷ b'c' ∷ b':'
          ∷ b' ' ∷ b'a' ∷ b'l' ∷ b'i' ∷ b'g' ∷ b'n' ∷ b'm' ∷ b'e' ∷ b'n' ∷ b't' ∷ b' ' ∷ b'c' ∷ b'h'
          ∷ b'e' ∷ b'c' ∷ b'k' ∷ b'!' ∷ [],
    )
    ∷ (
      true,
      b'k' ∷ b'e' ∷ b'r' ∷ b'n' ∷ b'e' ∷ b'l' ∷ b' ' ∷ b'p' ∷ b'a' ∷ b'n' ∷ b'i' ∷ b'c' ∷ b':'
          ∷ b' ' ∷ b'm' ∷ b'a' ∷ b'c' ∷ b'h' ∷ b'i' ∷ b'n' ∷ b'e' ∷ b' ' ∷ b'c' ∷ b'h' ∷ b'e' ∷ b'c'
          ∷ b'k' ∷ b'!' ∷ [],
    )
    ∷ (
      false,
      b'k' ∷ b'e' ∷ b'r' ∷ b'n' ∷ b'e' ∷ b'l' ∷ b' ' ∷ b'p' ∷ b'a' ∷ b'n' ∷ b'i' ∷ b'c' ∷ b':'
          ∷ b' ' ∷ b's' ∷ b'i' ∷ b'm' ∷ b'd' ∷ b' ' ∷ b'f' ∷ b'l' ∷ b'o' ∷ b'a' ∷ b't' ∷ b'i' ∷ b'n'
          ∷ b'g' ∷ b'-' ∷ b'p' ∷ b'o' ∷ b'i' ∷ b'n' ∷ b't' ∷ [],
    )
    ∷ []

-- The call of `panic` for an interrupt.
unfoldable pub panic_of : ℕ → Bool × List ℕ
unfolding panics
panic_of num =
    if num == int_unhandled
    then (
      true,
      b'k' ∷ b'e' ∷ b'r' ∷ b'n' ∷ b'e' ∷ b'l' ∷ b' ' ∷ b'p' ∷ b'a' ∷ b'n' ∷ b'i' ∷ b'c' ∷ b':'
          ∷ b' ' ∷ b'u' ∷ b'n' ∷ b'h' ∷ b'a' ∷ b'n' ∷ b'd' ∷ b'l' ∷ b'e' ∷ b'd' ∷ b' ' ∷ b'i' ∷ b'n'
          ∷ b't' ∷ b'e' ∷ b'r' ∷ b'r' ∷ b'u' ∷ b'p' ∷ b't' ∷ b' ' ∷ b'c' ∷ b'a' ∷ b'u' ∷ b'g' ∷ b'h'
          ∷ b't' ∷ [],
    )
    else get_or panics num (
      true,
      b'k' ∷ b'e' ∷ b'r' ∷ b'n' ∷ b'e' ∷ b'l' ∷ b' ' ∷ b'p' ∷ b'a' ∷ b'n' ∷ b'i' ∷ b'c' ∷ b':'
          ∷ b' ' ∷ b'u' ∷ b'n' ∷ b'k' ∷ b'n' ∷ b'o' ∷ b'w' ∷ b'n' ∷ b' ' ∷ b'i' ∷ b'n' ∷ b't' ∷ b'e'
          ∷ b'r' ∷ b'r' ∷ b'u' ∷ b'p' ∷ b't' ∷ b' ' ∷ b'c' ∷ b'a' ∷ b'u' ∷ b'g' ∷ b'h' ∷ b't' ∷ [],
    )
