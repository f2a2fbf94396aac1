-- ===== src/Message/File.antt =====
-- The file that a request or a response to send a file is about: its size, a time stamp, its path.
use small_program.Base.{
  ℕ, ◌+◌, ◌*◌, ◌^◌, ◌<◌, ◌≤◌, ◌≡◌, ap, subst, List, ◌++◌, append_assoc, length, length-append,
  arith, Build, Result, ok, ◌>>=◌, Ensures, done, Ensures-bind, Ensures-weaken,
}
use small_program.Base.Words.{to_big_endian, length-to_big_endian}
use small_program.Buffer.{Buffer, append}
use small_program.Buffer.Regions.{Holds}
use small_program.Buffer.Fresh.{IsFresh, append-IsFresh}
use small_program.Buffer.Chain.{append_uint64-then, read_uint64-then}
use small_program.Buffer.Numbers.{append_uint64, read_uint64}
use small_program.Message.Qt.{Qt, QString, to_utf16_le, length-to_utf16_le}
use small_program.Message.Fields.{IsCarried, read_text, read_text-eq}

pub record File : Type 0 where
  pub file_size : ℕ
  pub time_stamp : ℕ
  pub file_name : QString

pub record IsFile (qt : Qt) (f : File) : Type 0 where
  pub size_bound : f.file_size < 2 ^ 64
  pub time_bound : f.time_stamp < 2 ^ 64
  pub name : IsCarried qt f.file_name

abbrev pub file_bytes : File → List ℕ
file_bytes f =
    to_big_endian 8 f.file_size ++ (to_big_endian 8 f.time_stamp ++ to_utf16_le f.file_name)

pub length-file_bytes : (f : File) → length (file_bytes f) ≡ 16 + 2 * length f.file_name
length-file_bytes f = omega (
  arith,
  length-append {0},
  length-to_big_endian 8 f.file_size,
  length-to_big_endian 8 f.time_stamp,
  length-to_utf16_le f.file_name,
)

module _ (qt : Qt) (build : Build) where
  unfoldable pub append_file : Buffer → File → Result Buffer
  append_file b f = do
    b₁ ← append_uint64 build b f.file_size
    b₂ ← append_uint64 build b₁ f.time_stamp
    append build b₂ (to_utf16_le f.file_name)

  unfoldable pub read_file : Buffer → Result File
  read_file b = do
    (file_size, b₁) ← read_uint64 build b
    (time_stamp, b₂) ← read_uint64 build b₁
    file_name ← read_text qt build b₂
    ok (record { file_size = file_size; time_stamp = time_stamp; file_name = file_name })

  pub append_file-IsFresh :
      (b : Buffer) (xs : List ℕ) (f : File)
      → IsFile qt f
      → IsFresh b xs
      → length xs ≤ 1024
      → Ensures (λ b'. IsFresh b' (xs ++ file_bytes f)) (append_file b f)
  unfolding append_file
  append_file-IsFresh b xs f v h small =
      append_uint64-then build f.file_size b xs _ h (omega arith) λ b₁ h₁.
        append_uint64-then build f.time_stamp b₁ (xs ++ to_big_endian 8 f.file_size) _ h₁
          (omega (arith, length-append {0}, length-to_big_endian 8 f.file_size))
          λ b₂ h₂.
            Ensures-weaken
              (append-IsFresh build b₂ _ (to_utf16_le f.file_name) h₂
                (omega (
                  arith,
                  length-append {0},
                  length-to_big_endian 8 f.file_size,
                  length-to_big_endian 8 f.time_stamp,
                ))
                (omega (arith, length-to_utf16_le f.file_name, v.name.short)))
              λ b₃ h₃. subst (IsFresh b₃) regroup h₃
    where
      regroup :
          ((xs ++ to_big_endian 8 f.file_size) ++ to_big_endian 8 f.time_stamp)
            ++ to_utf16_le f.file_name
          ≡ xs ++ file_bytes f
      regroup = simp append_assoc

  pub read_file-eq :
      (b : Buffer) (f : File)
      → IsFile qt f
      → Holds b (file_bytes f)
      → Ensures (λ g. g ≡ f) (read_file b)
  unfolding read_file
  read_file-eq b f v h = read_uint64-then build f.file_size b _ _ v.size_bound h λ b₁ h₁.
      read_uint64-then build f.time_stamp b₁ _ _ v.time_bound h₁ λ b₂ h₂.
        Ensures-bind (λ t. t ≡ f.file_name) _ _ _ (read_text-eq qt build b₂ f.file_name v.name h₂)
          λ t e. done _ (ap (with_name f) e)
    where
      with_name : File → QString → File
      with_name g t = record g { file_name = t }
