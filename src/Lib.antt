-- ===== src/Lib.antt =====
-- A model of the core of CSymPy, a symbolic manipulation library in C++ (src/), with the theorems
-- that make it correct. Paths are from the root of the repository.
--
-- The parts of the program and the files that model them:
--
-- * Dictionaries (src/dict.h, src/dict.cpp): Dict models the maps and vectors of expressions as
--   lists of entries in iteration order: `find`, `insert`, `erase` and `update` are the operations
--   of std::map and std::unordered_map that the code uses, `umap_eq` is umap_basic_num_eq and
--   umap_basic_basic_eq, `map_eq` is map_basic_num_eq and map_basic_basic_eq, and `vec_basic_eq` and
--   `vec_basic_eq_perm` have the names of the source. The interface `Key` (`__eq__`, an equivalence)
--   is what the dictionaries ask of an expression. Dict/Find has the laws of lookups, Dict/Equality
--   those of the equality tests.
-- * Numbers (src/number.h, src/integer.*, src/rational.*, src/complex.*): NumberClass has the three
--   classes as one data type, their tests, their equality and the constructors in canonical form;
--   Number has one definition for each method of each class (addint, addrat, addcomp, ...) and
--   `addnum` to `divnum`, which dispatch on the class of the first number as the virtual call does.
--   Number/Value gives a number its value, a pair of rationals, Number/Canonical is about
--   is_canonical and `__eq__`, Number/Laws about sums and products,
--   Number/Laws/Norm about the sum of squares that divcomp and rdivcomp divide by,
--   Number/Laws/Division about quotients and Number/Laws/Errors about the exceptions of a division.
-- * Powers (powint in src/integer.h, pow_negint in src/integer.cpp, powrat in src/rational.h,
--   pow_number in src/pow.cpp): Number/Power, with Number/Power/Squaring for pow_number and
--   Number/Power/Laws for powint.
-- * Sums (src/add.cpp): Sum models the dictionary of an Add, from terms to coefficients, with
--   dict_add_term and the branch of `add` for two sums up to from_dict. It stands on Dict for the
--   dictionary and on Number for the coefficients.
-- * Sparse matrices (src/sparse_matrix.cpp): SparseMatrix models CSRMatrix with its three vectors,
--   get and set; SparseMatrix/Insert, SparseMatrix/Remove and SparseMatrix/GetSet follow the
--   branches of set. SparseMatrix/Operations models the functions on whole matrices: the tests of
--   the canonical form, csr_sum_duplicates, csr_scale_rows, csr_scale_columns and
--   csr_binop_csr_canonical. In it, Slices has the rows as lists, Merge the merge of two rows, Built
--   and Pushed the matrix that is built from the rows, Changed a matrix with changed entries, Binop
--   and Scale the theorems.
-- * Dense matrices (src/dense_matrix.cpp): DenseMatrix models the functions on vectors of entries
--   stored row by row, with their loops; the entries come with `add` and `mul` (the record
--   `Entries`). DenseMatrix/Loops is about loops over entries, DenseMatrix/Laws,
--   DenseMatrix/Rows and DenseMatrix/RowAdd are about the results. DenseMatrix/Solve has the
--   solvers for triangular and diagonal matrices and `pivot`; DenseMatrix/Elimination the
--   eliminations, plain, pivoted and fraction-free; DenseMatrix/Decomposition `LU`, `LDL`,
--   `cholesky`, `QR`, `fraction_free_LU`, `fraction_free_LDU` and the solvers on top of them, under
--   the same names in lower case; DenseMatrix/Determinant `det_bareis` and the Berkowitz algorithm;
--   DenseMatrix/Create the inverses and `eye`, `diag`, `ones` and `zeros`. Entries have in addition
--   `Division` (sub, div, one, eq) and `Powers` (pow with the exponents 2 and 1/2, expand); the
--   theorems on solvers and factors ask for the laws of a field (`IsField`), which entries that are
--   numbers meet. In DenseMatrix/Decomposition, Cells is about the cells of square matrices,
--   LuColumn, LuColumns, LuSplit, LuProduct and LuSolve about `LU`, LdlRow, LdlRows, LdlProduct and
--   LdlSolve about `LDL`;
--   DenseMatrix/Create/Inverse is about `inverse_LU`.
--   Vector has the operations of std::vector for both kinds of matrices.
-- * Polynomials (src/monomials.cpp, src/rings.cpp): Polynomial models monomial_mul and poly_mul on
--   maps from exponents to integers; Polynomial/Vectors is about the exponents, Polynomial/Values
--   about the value of a polynomial at integers, Polynomial/Product about poly_mul.
-- * Diophantine equations (src/diophantine.cpp): Diophantine models order, is_minimum and
--   homogeneous_lde on top of DenseMatrix, with the variables of its loops as records;
--   Diophantine/Matrices is about matrices of integers, Diophantine/Order about the order of
--   vectors, Diophantine/Solutions about the basis.
-- * Number theory (src/ntheory.cpp): Factoring models trial division, Pollard's methods, the prime
--   factors with and without multiplicities and the totient, over the list of the primes that
--   Sieve::iterator returns up to a limit (the record `PrimeSource`, with the laws of that list for
--   limits up to 2^20, for which one segment of the sieve is enough).
--   Factoring/Trial, Factoring/Complete, Factoring/Multiplicities, Factoring/Totient and
--   Factoring/Pollard have the theorems; Factoring/Examples runs the code.
--   Sieve models the class Sieve: the functions pass the table of primes on, which the code keeps in
--   a static member. Sieve/Multiples, Sieve/Marks, Sieve/Segment and Sieve/Flags are about the
--   flags of a segment, Sieve/Table about the invariant of the table, Sieve/Extend about `_extend`, Sieve/Generate about
--   `generate_primes`, Sieve/Next and Sieve/Iterator about the iterator; Sieve/Source fills
--   `PrimeSource` with the iterator.
--   Primality has what it means to be a prime, Primality/Search a search by trial division,
--   Primality/Listing that there is one list of the primes up to a limit, and Primality/Chain
--   that there is a prime between a number and its double, up to 2^20. NumberList is about lists
--   of numbers.
-- * GMP is not part of the repository. Gmp has what the code relies on as records of operations and
--   laws: `Mpq`, an exact field of fractions over the integers with numerator and denominator, and
--   in Number/Power `MpzPow`, mpz_pow_ui; `MpzRoot`, the square
--   root; Factoring has `MpzGcd` and `MpzPowm`.
--   Gmp/Fractions builds the rationals as a quotient of pairs of integers and shows that they meet
--   the laws of `Mpq`; the examples compute with them.
--
-- An exception is an `err` of a `Result`, with one constructor of `Error` for each message. Bounds
-- and fuel: `unsigned long` has 64 bits, `unsigned` and `int` 32. The exponents of monomials are
-- `int`: a sum that leaves it, which is undefined in C++, wraps around in `int_sum`, and the theorem
-- on poly_mul has a bound that excludes it. back_substitution counts down in `int`; the conversion
-- from `unsigned`, which changes only numbers of columns above 2^31, is not modelled. powint and pow_negint call one another, and powint passes a non-negative exponent
-- on to no other call, so that a depth of 2 is enough. The mask of pow_number is a `long`: 63 of
-- its values are positive, which is the fuel of its loop. The loops of CSRMatrix::get and set have
-- the length of the row as fuel. Dividing a prime out of a number has the number as fuel, the loop
-- over the powers of a prime in the p - 1 method its bound B, and the rho method its 10000 steps. _extend
-- calls itself for the square root of the limit, which is below the limit, its fuel; each segment
-- moves on by at least 2, so that limit + 1 rounds are enough; a loop over an iterator gets a larger
-- prime in each round, so that limit + 2 rounds are enough. Where a product or a sum is beyond
-- `unsigned`, the sieve wraps around as the code does. homogeneous_lde has the number of rounds as an
-- argument, and says whether the loop is over: its theorem is about any number of rounds. A
-- loop of dense_matrix.cpp that the code leaves early goes on here without a change. Where a bound
-- `col - 1` is in `unsigned`, it wraps around for a matrix without columns.
--
-- Not modelled: hashes, printing and derivatives; `__cmp__`, which throws for complex numbers, and
-- the three-way comparisons of maps and vectors that rest on it; reference counts and the stealing of
-- dictionaries, which only save copies, since expressions are immutable; Mul, Pow and the
-- functions; of number theory Lehman's method, the Chinese remainder theorem, Bernoulli numbers, roots
-- and residues; of CSRMatrix the sorting of the columns, from_coo, csr_diagonal and the two passes of
-- the product; expr2poly, which needs the symbolic expressions; the numerical evaluation, which computes with
-- floating point or Arb; the wrappers for C and Python, and src/teuchos, a copy of another project.
pub mod DenseMatrix
pub mod Dict
pub mod Diophantine
pub mod Factoring
pub mod Gmp
pub mod Number
pub mod Polynomial
pub mod NumberClass
pub mod NumberList
pub mod Prelude
pub mod Primality
pub mod Sieve
pub mod SparseMatrix
pub mod Sum
pub mod Vector
