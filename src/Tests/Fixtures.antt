-- ===== src/Tests/Fixtures.antt =====
-- Thin and fat files with small pages, and digests that are easy to compute.
use machokeeper.Base.{ℕ, suc, zero, ◌+◌, ◌%◌, refl, List, [], ◌∷◌, ◌++◌, take, drop}
use machokeeper.Engine.Defs.{Hashes}

abbrev pub sum : List ℕ → ℕ
sum [] = 0
sum (x ∷ xs) = (x + sum xs) % 256

abbrev pub replicate : ℕ → ℕ → List ℕ
replicate zero a = []
replicate (suc n) a = a ∷ replicate n a

-- A digest repeats the sum of the bytes.
abbrev pub toy : Hashes
toy = record {
  sha1 = λ bytes. replicate 20 (sum bytes);
  sha256 = λ bytes. replicate 32 (sum bytes);
  length-sha1 = λ bytes. refl;
  length-sha256 = λ bytes. refl;
}

-- The header of a thin 64-bit file with one load command, LC_CODE_SIGNATURE, for a signature of
-- `size` bytes (below 256) at offset 48.
abbrev pub thin_header : ℕ → List ℕ
thin_header size =
    0xcf ∷ 0xfa ∷ 0xed ∷ 0xfe ∷ 0 ∷ 0 ∷ 0 ∷ 0 ∷ 0 ∷ 0 ∷ 0 ∷ 0 ∷ 0 ∷ 0 ∷ 0 ∷ 0 ∷ 1 ∷ 0 ∷ 0 ∷ 0 ∷ 16
    ∷ 0 ∷ 0 ∷ 0 ∷ 0 ∷ 0 ∷ 0 ∷ 0 ∷ 0 ∷ 0 ∷ 0 ∷ 0 ∷ 0x1d ∷ 0 ∷ 0 ∷ 0 ∷ 16 ∷ 0 ∷ 0 ∷ 0 ∷ 48 ∷ 0 ∷ 0 ∷ 0
    ∷ size ∷ 0 ∷ 0 ∷ 0 ∷ []

-- A CodeDirectory over the 48 bytes before the signature, with pages of 32 bytes and SHA-1 slots.
abbrev pub directory_header : List ℕ
directory_header =
    0xfa ∷ 0xde ∷ 0x0c ∷ 0x02 ∷ 0 ∷ 0 ∷ 0 ∷ 84 ∷ 0 ∷ 0 ∷ 0 ∷ 0 ∷ 0 ∷ 0 ∷ 0 ∷ 0 ∷ 0 ∷ 0 ∷ 0 ∷ 44 ∷ 0
    ∷ 0 ∷ 0 ∷ 0 ∷ 0 ∷ 0 ∷ 0 ∷ 0 ∷ 0 ∷ 0 ∷ 0 ∷ 2 ∷ 0 ∷ 0 ∷ 0 ∷ 48 ∷ 20 ∷ 1 ∷ 0 ∷ 5 ∷ 0 ∷ 0 ∷ 0 ∷ 0
    ∷ []

-- A SuperBlob with that directory alone.
abbrev pub one_blob : List ℕ
one_blob =
    0xfa ∷ 0xde ∷ 0x0c ∷ 0xc0 ∷ 0 ∷ 0 ∷ 0 ∷ 104 ∷ 0 ∷ 0 ∷ 0 ∷ 1 ∷ 0 ∷ 0 ∷ 0 ∷ 0 ∷ 0 ∷ 0 ∷ 0 ∷ 20
    ∷ []

-- Both slots are stale.
abbrev pub broken : List ℕ
broken = thin_header 104 ++ (one_blob ++ (directory_header ++ replicate 40 0))

-- The same file with the hashes of its pages.
abbrev pub sound : List ℕ
sound =
    thin_header 104
    ++ (one_blob
        ++ (directory_header
            ++ (replicate 20 (sum (take 32 (thin_header 104)))
                ++ replicate 20 (sum (drop 32 (thin_header 104))))))

-- A SuperBlob with a directory and a non-empty CMS wrapper.
abbrev pub cms_file : List ℕ
cms_file =
    thin_header 121
    ++ ((0xfa ∷ 0xde ∷ 0x0c ∷ 0xc0 ∷ 0 ∷ 0 ∷ 0 ∷ 121 ∷ 0 ∷ 0 ∷ 0 ∷ 2 ∷ 0 ∷ 0 ∷ 0 ∷ 0 ∷ 0 ∷ 0 ∷ 0
          ∷ 28 ∷ 0 ∷ 1 ∷ 0 ∷ 0 ∷ 0 ∷ 0 ∷ 0 ∷ 112 ∷ [])
        ++ (directory_header
            ++ (replicate 40 0 ++ (0xfa ∷ 0xde ∷ 0x0b ∷ 0x01 ∷ 0 ∷ 0 ∷ 0 ∷ 9 ∷ 7 ∷ []))))

-- A fat container with `broken` as its only slice, at offset 28.
abbrev pub fat_file : List ℕ
fat_file =
    (0xca ∷ 0xfe ∷ 0xba ∷ 0xbe ∷ 0 ∷ 0 ∷ 0 ∷ 1 ∷ 1 ∷ 0 ∷ 0 ∷ 7 ∷ 0 ∷ 0 ∷ 0 ∷ 3 ∷ 0 ∷ 0 ∷ 0 ∷ 28 ∷ 0
      ∷ 0 ∷ 0 ∷ 152 ∷ 0 ∷ 0 ∷ 0 ∷ 0 ∷ [])
    ++ broken

-- A fat container in which the signature of the second entry's slice, at offset 48, reaches into the
-- slice of the first entry, at offset 116: the length of its CMS wrapper, 8 and so empty, lies in a
-- stale slot of the first slice.
abbrev pub overlapping : List ℕ
overlapping =
    (0xca ∷ 0xfe ∷ 0xba ∷ 0xbe ∷ 0 ∷ 0 ∷ 0 ∷ 2 ∷ 1 ∷ 0 ∷ 0 ∷ 7 ∷ 0 ∷ 0 ∷ 0 ∷ 3 ∷ 0 ∷ 0 ∷ 0 ∷ 116 ∷ 0
      ∷ 0 ∷ 0 ∷ 156 ∷ 0 ∷ 0 ∷ 0 ∷ 0 ∷ 1 ∷ 0 ∷ 0 ∷ 7 ∷ 0 ∷ 0 ∷ 0 ∷ 3 ∷ 0 ∷ 0 ∷ 0 ∷ 48 ∷ 0 ∷ 0 ∷ 0
      ∷ 68 ∷ 0 ∷ 0 ∷ 0 ∷ 0 ∷ [])
    ++ (thin_header 150
        ++ ((0xfa ∷ 0xde ∷ 0x0c ∷ 0xc0 ∷ 0 ∷ 0 ∷ 0 ∷ 150 ∷ 0 ∷ 0 ∷ 0 ∷ 1 ∷ 0 ∷ 1 ∷ 0 ∷ 0 ∷ 0 ∷ 0 ∷ 0
              ∷ 132 ∷ [])
            ++ (thin_header 108
                ++ ((0xfa ∷ 0xde ∷ 0x0c ∷ 0xc0 ∷ 0 ∷ 0 ∷ 0 ∷ 108 ∷ 0 ∷ 0 ∷ 0 ∷ 1 ∷ 0 ∷ 0 ∷ 0 ∷ 0 ∷ 0
                      ∷ 0 ∷ 0 ∷ 20 ∷ [])
                    ++ ((0xfa ∷ 0xde ∷ 0x0c ∷ 0x02 ∷ 0 ∷ 0 ∷ 0 ∷ 88 ∷ 0 ∷ 0 ∷ 0 ∷ 0 ∷ 0 ∷ 0 ∷ 0 ∷ 0
                          ∷ 0 ∷ 0 ∷ 0 ∷ 48 ∷ 0 ∷ 0 ∷ 0 ∷ 0 ∷ 0 ∷ 0 ∷ 0 ∷ 0 ∷ 0 ∷ 0 ∷ 0 ∷ 2 ∷ 0 ∷ 0
                          ∷ 0 ∷ 48 ∷ 20 ∷ 1 ∷ 0 ∷ 5 ∷ 0 ∷ 0 ∷ 0 ∷ 0 ∷ 0xfa ∷ 0xde ∷ 0x0b ∷ 0x01 ∷ 0
                          ∷ 0 ∷ 0 ∷ 8 ∷ [])
                        ++ replicate 36 0)))))
