-- ===== src/Lib.antt =====
-- A model of libcrange, the C library that evaluates range expressions: short notations for sets of
-- host names, such as `node1..9`, `{a,b}.example`, `x,-y` and `x,&/re/`.
--
-- The parts of the program, and how they interact
--   The evaluator (source/src/ast.c) walks the tree of an expression and builds a range for every
--   node by the operations of source/src/range.c. A range is a hash set of names
--   (source/src/set.c) with a flag that says whether its names are printed in quotes. Warnings are
--   collected in the request (source/src/range_request.c) that is handed through. A function of an
--   expression, and a group, is a function of a loaded module.
--
-- The files
--   Base      what the parts share: lists, Boolean tests and their lemmas; Base/CString has C strings
--             as lists of bytes without the zero at their end, and Base/Faults the result of code that
--             can fail an assertion, read out of bounds, follow a null pointer or overflow an `int`.
--   HashSet   source/src/set.c, every function under its own name. Hash is `string_hash` with its 32-bit
--             arithmetic, Primes the sizes and `next_prime`, Bucket the linked list of a bucket. The set
--             is its table, a list of buckets, with its count; the field `hashsize` is the length of the
--             table. Table, Elements, Resize, Laws, Algebra and Sweep hold the proofs: the well-formedness
--             of a set and the finite map it stands for is `Models`, in Resize.
--             Packed is the packed form, for a set whose data are C strings, as a list of bytes; Fuel is about
--             the fuel of the loop that reads it, and Sample has sets for the tests.
--   Range     source/src/range.c without the operations that take a request. Decimal is `atoi` and `%0*d`
--             for numbers that are not negative. Meaning defines what set of names a range denotes, and
--             Grouped does so for a set whose data are ranges, by key. Hostname takes a text such as
--             `web1..9.example` apart, where what PCRE captures of it is a parameter.
--   Request   source/src/range_request.c, the state of a request and its warnings. Warned takes the ranges
--             of the warnings by their type.
--   Evaluate  source/src/ast.c with `range_from_match`, `range_from_group` and `range_from_function` of
--             source/src/range.c. PCRE, which compiles a pattern to an error or to a test (whether
--             `pcre_exec` returns a positive count), and the functions of the Perl, Python and C modules
--             are the fields of the record `Env`, of which nothing is assumed. Meaning defines the set of
--             names that an expression stands for.
--   Compress  source/src/range_parts.c, source/src/range_sort.c and source/src/range_compress.c: the names of
--             a range are sorted and written with groups of consecutive numbers. What PCRE captures of a name
--             is a parameter. Order is the order of `compare_parts`, Sorted the sort by it, where an
--             insertion sort stands for `qsort`: entries that compare as equal are the same, so that every
--             sort gives the same list. Groups relates a printed group to `range_from_rangeparts`, which
--             expands it, and Segments, Correct and Whole do so for the list of groups.
--             Warnings is the text of the warnings of a request, in source/src/range_request.c.
--   Netblock  source/functions/netblock.c, source/functions/hosts-netblocks.c and
--             source/functions/yst-ip-list.c: the block of an address, the caches of hosts by block and by
--             data centre, and the functions of expressions that read them. In Netblock itself the blocks and
--             the hosts are given, as are the domain of the configuration and whether the context caches, in
--             a `HostContext`, and `netblock_from_string` is a parameter;
--             Hosts, Filled and Lookups hold the lemmas on its caches. Blocks is the file of blocks:
--             `netblock_from_string` and `read_netblocks`, with what PCRE captures of a text and the lines of
--             the file as parameters. Tinydns is source/functions/tinydns_ip.c and source/functions/ip.c.
--   Context   source/src/libcrange.c: the caches, variables and tables of functions of a context. What a cache
--             holds and what a function is are type parameters. Config is the reading of the configuration and
--             the loading of modules, where the dynamic linker, PCRE and the interpreters of Perl and Python are
--             parameters. Expand is `do_range_expand` of source/src/range.c with the interface for users of the
--             library, where the parser is a parameter.
--   Bridge    the calls of functions in Perl and in Python (source/src/perl_functions.c and
--             source/src/python_functions.c), where an interpreter is a parameter. Call follows such a call,
--             and Load the loading of a module in Python. What the entry behind its functions, which
--             nothing writes, and the memory behind it hold are parameters too.
--   Groups    the function `group` of source/functions/group-sqlite.c, source/functions/group-mysql.c and
--             source/functions/pgsql.c, where the libraries of the databases are parameters.
--   Cluster   what the modules of cluster functions share, source/functions/yamlfile.c,
--             source/functions/nodescf.c and source/functions/sqlite.c: Dollars rewrites the text of a section,
--             Sections is the cache of sections, and the functions has, mem, cluster, clusters and get_groups
--             stand over the expansion of a section.
--   Yamlfile  source/functions/yamlfile.c, clusters in files of YAML, where libyaml is a parameter.
--   Nodescf   source/functions/nodescf.c, clusters in files nodes.cf and vips.cf. Lines is what the loops do
--             with a line, Keys the sections of a file. What PCRE captures of a line is a parameter.
--   Sqlite    source/functions/sqlite.c, clusters in a database, where SQLite is a parameter.
--   Mdbm      source/functions/sqlite_mdbm.c, which has the sections as packed sets in a file of MDBM;
--             Section follows the reading of one.
--   The cluster functions expand the text of a section by `do_range_expand`, which runs the parser, and
--   which is a parameter. It may change the request and the caches, as expressions call these functions again.
--
-- State and effects
--   A function that changes a set or a range in place returns the changed one. The element that
--   `set_add` returns is not modelled, since no modelled caller reads it. Loops over tables and linked
--   lists are structural recursion, and need no fuel. The loop of `range_from_rangeparts`
--   counts up from the first number, with as many rounds as there are numbers.
--   Fuel stands in three places: the length of the buffer for the loop of `set_unpack`, each round of which
--   reads a byte or stops, ten decimal digits for an `int`, and eight hexadecimal ones for an `unsigned`.
--
-- Bounds
--   Indices into a table are `int` in the source, its size and its count `size_t`. The theorems bound
--   sizes by 1610612741, the largest size of a table that fits an `int`; beyond it the source's
--   conversions to `int` are not modelled. A byte of a name is below 256, and `char` is signed.
--
-- Not modelled
--   A file system that changes during a call of a cluster function: files, times and directories are
--   functions. The range of the addresses of a cluster shares the set of the cache in the source; what is
--   done to the range is not done to the cache of the model.
--   Memory pools and allocation, and the lifetime of what they hold; the parser and the scanner, which
--   are generated from their grammars; the dumps of sets and what is printed on errors; the hash
--   functions of source/src/set.c that are not compiled in; and the command line.
pub mod Base
pub mod HashSet
pub mod Range
pub mod Request
pub mod Evaluate
pub mod Compress
pub mod Netblock
pub mod Context
pub mod Bridge
pub mod Groups
pub mod Cluster
pub mod Yamlfile
pub mod Nodescf
pub mod Sqlite
pub mod Mdbm
