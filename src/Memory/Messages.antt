-- ===== src/Memory/Messages.antt =====
-- src/kernel/memory.c: the formats that the heap and the page fault handler print.
use ktux.Base.{ℕ, List, [], ◌∷◌}

abbrev pub init_heap_format : List ℕ
init_heap_format =
    b'i' ∷ b'n' ∷ b'i' ∷ b't' ∷ b'_' ∷ b'h' ∷ b'e' ∷ b'a' ∷ b'p' ∷ b'(' ∷ b')' ∷ b' ' ∷ b':' ∷ b' '
    ∷ []

abbrev pub heap_table_format : List ℕ
heap_table_format =
    b'h' ∷ b'e' ∷ b'a' ∷ b'p' ∷ b' ' ∷ b't' ∷ b'a' ∷ b'b' ∷ b'l' ∷ b'e' ∷ b' ' ∷ b'm' ∷ b'a' ∷ b'p'
    ∷ b'p' ∷ b'e' ∷ b'd' ∷ b' ' ∷ b'a' ∷ b't' ∷ b' ' ∷ b'0' ∷ b'x' ∷ b'%' ∷ b'X' ∷ b',' ∷ b' '
    ∷ b'p' ∷ b'a' ∷ b'g' ∷ b'e' ∷ b' ' ∷ b'0' ∷ b' ' ∷ b'm' ∷ b'a' ∷ b'p' ∷ b'p' ∷ b'e' ∷ b'd'
    ∷ b' ' ∷ b't' ∷ b'o' ∷ b' ' ∷ b'p' ∷ b'h' ∷ b'y' ∷ b's' ∷ b'i' ∷ b'c' ∷ b'a' ∷ b'l' ∷ b' '
    ∷ b'0' ∷ b'x' ∷ b'%' ∷ b'X' ∷ 0x0A ∷ []

-- `page_fault_handler`, when it returns.
abbrev pub page_fault_format : List ℕ
page_fault_format =
    b'p' ∷ b'a' ∷ b'g' ∷ b'e' ∷ b' ' ∷ b'f' ∷ b'a' ∷ b'u' ∷ b'l' ∷ b't' ∷ b':' ∷ b' ' ∷ b'a' ∷ b'd'
    ∷ b'd' ∷ b'r' ∷ b'e' ∷ b's' ∷ b's' ∷ b'=' ∷ b'%' ∷ b'p' ∷ b' ' ∷ b'r' ∷ b'e' ∷ b'f' ∷ b'e'
    ∷ b'r' ∷ b'e' ∷ b'n' ∷ b'c' ∷ b'e' ∷ b'd' ∷ b' ' ∷ b'a' ∷ b't' ∷ b' ' ∷ b'k' ∷ b'e' ∷ b'r'
    ∷ b'n' ∷ b'e' ∷ b'l' ∷ b' ' ∷ b'E' ∷ b'I' ∷ b'P' ∷ b' ' ∷ b'0' ∷ b'x' ∷ b'%' ∷ b'p' ∷ 0x0A ∷ []

abbrev pub directory_entry_format : List ℕ
directory_entry_format =
    b' ' ∷ b' ' ∷ b'k' ∷ b'e' ∷ b'r' ∷ b'n' ∷ b'e' ∷ b'l' ∷ b' ' ∷ b'p' ∷ b'a' ∷ b'g' ∷ b'e' ∷ b' '
    ∷ b'd' ∷ b'i' ∷ b'r' ∷ b'e' ∷ b'c' ∷ b't' ∷ b'o' ∷ b'r' ∷ b'y' ∷ b' ' ∷ b'e' ∷ b'n' ∷ b't'
    ∷ b'r' ∷ b'y' ∷ b'=' ∷ b'0' ∷ b'x' ∷ b'%' ∷ b'p' ∷ 0x0A ∷ []

abbrev pub table_entry_format : List ℕ
table_entry_format =
    b' ' ∷ b' ' ∷ b'k' ∷ b'e' ∷ b'r' ∷ b'n' ∷ b'e' ∷ b'l' ∷ b' ' ∷ b'p' ∷ b'a' ∷ b'g' ∷ b'e' ∷ b' '
    ∷ b't' ∷ b'a' ∷ b'b' ∷ b'l' ∷ b'e' ∷ b' ' ∷ b'@' ∷ b' ' ∷ b'0' ∷ b'x' ∷ b'%' ∷ b'p' ∷ b';'
    ∷ b' ' ∷ b'p' ∷ b'a' ∷ b'g' ∷ b'e' ∷ b'_' ∷ b't' ∷ b'a' ∷ b'b' ∷ b'l' ∷ b'e' ∷ b'[' ∷ b'0'
    ∷ b'x' ∷ b'%' ∷ b'p' ∷ b']' ∷ b'=' ∷ b'0' ∷ b'x' ∷ b'%' ∷ b'p' ∷ 0x0A ∷ []

abbrev pub updated_format : List ℕ
updated_format =
    b' ' ∷ b' ' ∷ b'u' ∷ b'p' ∷ b'd' ∷ b'a' ∷ b't' ∷ b'e' ∷ b'd' ∷ b':' ∷ b' ' ∷ b'k' ∷ b'e' ∷ b'r'
    ∷ b'n' ∷ b'e' ∷ b'l' ∷ b' ' ∷ b'p' ∷ b'a' ∷ b'g' ∷ b'e' ∷ b' ' ∷ b't' ∷ b'a' ∷ b'b' ∷ b'l'
    ∷ b'e' ∷ b' ' ∷ b'@' ∷ b' ' ∷ b'0' ∷ b'x' ∷ b'%' ∷ b'p' ∷ b';' ∷ b' ' ∷ b'p' ∷ b'a' ∷ b'g'
    ∷ b'e' ∷ b'_' ∷ b't' ∷ b'a' ∷ b'b' ∷ b'l' ∷ b'e' ∷ b'[' ∷ b'0' ∷ b'x' ∷ b'%' ∷ b'p' ∷ b']'
    ∷ b'=' ∷ b'0' ∷ b'x' ∷ b'%' ∷ b'p' ∷ 0x0A ∷ []

-- `kmalloc` and `sbrk`.
abbrev pub kmalloc1_format : List ℕ
kmalloc1_format =
    b'[' ∷ b'd' ∷ b'b' ∷ b'g' ∷ b']' ∷ b' ' ∷ b'k' ∷ b'm' ∷ b'a' ∷ b'l' ∷ b'l' ∷ b'o' ∷ b'c' ∷ b'1'
    ∷ b'(' ∷ b'0' ∷ b'x' ∷ b'%' ∷ b'X' ∷ b')' ∷ b'.' ∷ b'p' ∷ b'o' ∷ b's' ∷ b't' ∷ b' ' ∷ b'r'
    ∷ b'e' ∷ b't' ∷ b'u' ∷ b'r' ∷ b'n' ∷ b'(' ∷ b'0' ∷ b'x' ∷ b'%' ∷ b'X' ∷ b')' ∷ b' ' ∷ b':'
    ∷ b' ' ∷ b'h' ∷ b'e' ∷ b'a' ∷ b'p' ∷ b'E' ∷ b'n' ∷ b'd' ∷ b'/' ∷ b'L' ∷ b'i' ∷ b'm' ∷ b'i'
    ∷ b't' ∷ b'=' ∷ b'0' ∷ b'x' ∷ b'%' ∷ b'X' ∷ b'/' ∷ b'0' ∷ b'x' ∷ b'%' ∷ b'X' ∷ b',' ∷ b' '
    ∷ b'f' ∷ b'r' ∷ b'e' ∷ b'e' ∷ b'B' ∷ b'y' ∷ b't' ∷ b'e' ∷ b's' ∷ b'=' ∷ b'%' ∷ b'd' ∷ 0x0A ∷ []

abbrev pub kmalloc2_format : List ℕ
kmalloc2_format =
    b'[' ∷ b'd' ∷ b'b' ∷ b'g' ∷ b']' ∷ b' ' ∷ b'k' ∷ b'm' ∷ b'a' ∷ b'l' ∷ b'l' ∷ b'o' ∷ b'c' ∷ b'2'
    ∷ b'(' ∷ b'0' ∷ b'x' ∷ b'%' ∷ b'X' ∷ b')' ∷ b' ' ∷ b'r' ∷ b'e' ∷ b't' ∷ b'u' ∷ b'r' ∷ b'n'
    ∷ b'(' ∷ b'0' ∷ b'x' ∷ b'%' ∷ b'X' ∷ b')' ∷ b' ' ∷ b':' ∷ b' ' ∷ b'h' ∷ b'e' ∷ b'a' ∷ b'p'
    ∷ b'E' ∷ b'n' ∷ b'd' ∷ b'/' ∷ b'L' ∷ b'i' ∷ b'm' ∷ b'i' ∷ b't' ∷ b'=' ∷ b'0' ∷ b'x' ∷ b'%'
    ∷ b'X' ∷ b'/' ∷ b'0' ∷ b'x' ∷ b'%' ∷ b'X' ∷ b',' ∷ b' ' ∷ b'f' ∷ b'r' ∷ b'e' ∷ b'e' ∷ b'B'
    ∷ b'y' ∷ b't' ∷ b'e' ∷ b's' ∷ b'=' ∷ b'%' ∷ b'd' ∷ 0x0A ∷ []

abbrev pub kmalloc3_format : List ℕ
kmalloc3_format =
    b'[' ∷ b'd' ∷ b'b' ∷ b'g' ∷ b']' ∷ b' ' ∷ b'k' ∷ b'm' ∷ b'a' ∷ b'l' ∷ b'l' ∷ b'o' ∷ b'c' ∷ b'3'
    ∷ b'(' ∷ b'0' ∷ b'x' ∷ b'%' ∷ b'X' ∷ b')' ∷ b' ' ∷ b':' ∷ b' ' ∷ b'h' ∷ b'e' ∷ b'a' ∷ b'p'
    ∷ b'E' ∷ b'n' ∷ b'd' ∷ b'/' ∷ b'L' ∷ b'i' ∷ b'm' ∷ b'i' ∷ b't' ∷ b'=' ∷ b'0' ∷ b'x' ∷ b'%'
    ∷ b'X' ∷ b'/' ∷ b'0' ∷ b'x' ∷ b'%' ∷ b'X' ∷ b',' ∷ b' ' ∷ b'f' ∷ b'r' ∷ b'e' ∷ b'e' ∷ b'B'
    ∷ b'y' ∷ b't' ∷ b'e' ∷ b's' ∷ b'=' ∷ b'%' ∷ b'd' ∷ 0x0A ∷ []

abbrev pub sbrk_format : List ℕ
sbrk_format =
    b'[' ∷ b'd' ∷ b'b' ∷ b'g' ∷ b']' ∷ b' ' ∷ b's' ∷ b'b' ∷ b'r' ∷ b'k' ∷ b'(' ∷ b'0' ∷ b'x' ∷ b'%'
    ∷ b'X' ∷ b')' ∷ b' ' ∷ b':' ∷ b' ' ∷ b'0' ∷ b'x' ∷ b'%' ∷ b'X' ∷ b' ' ∷ b'u' ∷ b'n' ∷ b't'
    ∷ b'i' ∷ b'l' ∷ b' ' ∷ b'E' ∷ b'O' ∷ b'P' ∷ b' ' ∷ b'(' ∷ b'h' ∷ b'e' ∷ b'a' ∷ b'p' ∷ b'M'
    ∷ b'a' ∷ b'p' ∷ b'L' ∷ b'i' ∷ b'm' ∷ b'i' ∷ b't' ∷ b'=' ∷ b'0' ∷ b'x' ∷ b'%' ∷ b'X' ∷ b')'
    ∷ 0x0A ∷ []

abbrev pub sbrk_return_format : List ℕ
sbrk_return_format =
    b'[' ∷ b'd' ∷ b'b' ∷ b'g' ∷ b']' ∷ b' ' ∷ b's' ∷ b'b' ∷ b'r' ∷ b'k' ∷ b' ' ∷ b'r' ∷ b'e' ∷ b't'
    ∷ b'u' ∷ b'r' ∷ b'n' ∷ b'(' ∷ b'0' ∷ b'x' ∷ b'%' ∷ b'X' ∷ b')' ∷ b' ' ∷ b':' ∷ b' ' ∷ b'h'
    ∷ b'e' ∷ b'a' ∷ b'p' ∷ b'M' ∷ b'a' ∷ b'p' ∷ b'L' ∷ b'i' ∷ b'm' ∷ b'i' ∷ b't' ∷ b'=' ∷ b'0'
    ∷ b'x' ∷ b'%' ∷ b'X' ∷ b',' ∷ b' ' ∷ b'0' ∷ b'x' ∷ b'%' ∷ b'X' ∷ b' ' ∷ b'u' ∷ b'n' ∷ b't'
    ∷ b'i' ∷ b'l' ∷ b' ' ∷ b'E' ∷ b'O' ∷ b'P' ∷ 0x0A ∷ []
