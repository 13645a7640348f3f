-- ===== src/Drivers/Chardev.antt =====
-- driver/chardev: the character devices of simple_chardev/chardev.c and dummy_char/dummy-char.c. The
-- kernel's functions are parameters.
pub mod Reading
pub mod Modules
use config_env.Prelude.{
  c_string, [], ℕ, zero, suc, List, ◌∷◌, ◌++◌, Bool, true, false, ◌==◌, ltb, if◌then◌else◌, take,
  length,
}

-- "Hello from the kernel world!\n"
abbrev pub greeting : List ℕ
greeting =
    b'H' ∷ b'e' ∷ b'l' ∷ b'l' ∷ b'o' ∷ b' ' ∷ b'f' ∷ b'r' ∷ b'o' ∷ b'm' ∷ b' ' ∷ b't' ∷ b'h' ∷ b'e'
    ∷ b' ' ∷ b'k' ∷ b'e' ∷ b'r' ∷ b'n' ∷ b'e' ∷ b'l' ∷ b' ' ∷ b'w' ∷ b'o' ∷ b'r' ∷ b'l' ∷ b'd'
    ∷ b'!' ∷ 10 ∷ []

-- What a read gives: the bytes that arrive in the caller's buffer, as many as the number returned, or
-- -EFAULT.
pub data ReadReply : Type 0 where
  efault : ReadReply
  bytes : List ℕ → ReadReply

-- `copies`: whether `copy_to_user` copies all of it. The file's offset is neither read nor set, so it
-- is no part of the state.
unfoldable pub mychardev_read : (copies : Bool) (count : ℕ) → ReadReply
mychardev_read copies count =
    let n = if ltb (length greeting) count then length greeting else count in
    if copies then bytes (take n greeting) else efault

abbrev pub keep_reading : ReadReply → List ℕ × Bool → List ℕ × Bool
keep_reading efault rest = ([], true)
keep_reading (bytes []) rest = ([], true)
keep_reading (bytes (b ∷ bs)) rest = (b ∷ (bs ++ rest.0), rest.1)

-- A program that reads until a read gives nothing, at most `rounds` times: what it gets, and whether it
-- came to the end.
unfoldable pub read_all : (rounds count : ℕ) → List ℕ × Bool
read_all zero count = ([], false)
read_all (suc rounds) count = keep_reading (mychardev_read true count) (read_all rounds count)

-- The buffer after `databuf[i] = 0`.
abbrev pub with_nul : List ℕ → ℕ → List ℕ
with_nul [] i = []
with_nul (b ∷ bs) zero = 0 ∷ bs
with_nul (b ∷ bs) (suc i) = b ∷ with_nul bs i

-- What is printed, and what is returned.
pub record WriteReply : Type 0 where
  pub printed : List ℕ
  pub ret : ℕ

-- `uncopied` is what `copy_from_user` returns, the number of bytes that it did not copy, and `databuf`
-- the buffer of 31 bytes after it.
unfoldable pub mychardev_write : (uncopied count : ℕ) → List ℕ → WriteReply
mychardev_write uncopied count databuf = record {
  printed = c_string (with_nul databuf uncopied);
  ret = count;
}
