-- ===== src/Service/Descriptor.antt =====
-- `FileDescriptor` of examples/service_example.cpp: the object holds its descriptor, and each
-- operation says which descriptors it passes to `close`.
use high_performance_logger.Common.{List, [], ◌∷◌}
use high_performance_logger.Common.Int.{ℤ, pos, negsuc}

pub record FileDescriptor : Type 0 where
  pub fd : ℤ

-- No descriptor, -1.
abbrev pub no_descriptor : ℤ
no_descriptor = negsuc 0

abbrev pub closes : ℤ → List ℤ
closes (pos n) = pos n ∷ []
closes (negsuc n) = []

unfoldable pub reset : ℤ → FileDescriptor → FileDescriptor × List ℤ
reset fd d = (record { fd = fd }, closes d.fd)

unfoldable pub release : FileDescriptor → ℤ × FileDescriptor
release d = (d.fd, record { fd = no_descriptor })

-- `FileDescriptor(FileDescriptor&& other)`: the new object, and what is left in `other`.
unfoldable pub move_out_of : FileDescriptor → FileDescriptor × FileDescriptor
move_out_of other = (other, record { fd = no_descriptor })

-- `operator=` from another object.
unfoldable pub move_assign :
    FileDescriptor → FileDescriptor → (FileDescriptor × FileDescriptor) × List ℤ
unfolding reset
move_assign d other =
    let (emptied, closed) = reset no_descriptor d in
    ((record emptied { fd = other.fd }, record { fd = no_descriptor }), closed)

-- The destructor.
unfoldable pub destroy : FileDescriptor → List ℤ
unfolding reset
destroy d = (reset no_descriptor d).1
