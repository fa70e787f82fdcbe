-- ===== src/Lib.antt =====
-- MoonLib: a library of C++ helpers. This development models the parts of it that compute or keep a
-- state: the queue with eviction, the big integers, fractions, text helpers, the thread pool, and the
-- tables that the ZooKeeper manager keeps.
--
-- Common: the names, Boolean tests, lists and integers that the other modules share.
-- Text: std::string as a list of character codes, and CppString::Reverse (src/CppString.cpp).
--   `Text.Reverse` has its theorem. `Text.Distance` is CppString::EditDistance with its theorem, and
--   `Text.Split` is SplitStr and GetList with theirs in `Text.Split.Joined`, and `Text.Replace` is
--   ReplaceStr with theirs in `Single` and `Stops`. `Text.Count` is SubstrCount and `Text.Trim` is
--   TrimLeft of one text, with theirs in `Places` and `Off`.
-- Lru: CppLRU<T> (src/CppLRU.h). The object is the record `Lru` with the set, the list, the capacity
--   and the lock flag; `make`, `exist`, `push`, `pop`, `del`, `clear` and `empty` are its
--   constructor and methods. A method gives the new object. `Lru.Sets` has what the set and the
--   list do, `Lru.Invariant` the invariant, `Lru.Pushing` and `Lru.Queue` the bounded queue that
--   the object stands for, `Lru.Stale` what goes wrong when Pop is given a pointer.
-- BigNum: CppBigNum (src/CppBigNum.h, src/CppBigNum.cpp), a sign and decimal digits as text.
--   `scan`, `take_digits` and `from_str` are GetNumFromStr and the constructors from text,
--   `less`, `equal` and so on the comparisons. `BigNum.Sum` is operator+ and operator-,
--   `BigNum.Product` operator*, `BigNum.Quotient` operator/ and operator%, `BigNum.Assign` the
--   operators that change the object, `BigNum.Decimal` the conversions of unsigned integers
--   (src/CppString.h). `BigNum.Digits`, `BigNum.Parse`, `BigNum.Order` and the child modules
--   `Value`, `Sign`, `Loop` and `Naturals` have the theorems; `BigNum.Parse` says which integer
--   an object stands for (`value`) and what every constructor leaves (`IsCanonical`).
-- BigNumPro: CppBigNumPro (the same files), a sign and digits in base 2 ^ 32, the lowest first.
--   `BigNumPro.Product` is operator*, `BigNumPro.Quotient` operator/ and operator%.
--   `BigNumPro.Limbs` says which integer an object stands for; `Order`, `Sum`, `Borrow`,
--   `Product.Value`, `Quotient.Places` and `Quotient.Search` have the theorems.
-- Math: GCD and Factorial of CppMath (src/CppMath.h, src/CppMath.cpp), with theorems in
--   `Math.Divisor` and `Math.Counting`. `Math.Primes` is IsPrime and the form of CppMathPrimeWithCache,
--   with theirs in `Trial` and `Cache`, `Math.Factors` GetPrimerFactorNum with `Product`,
--   `Math.Cached` FactorialWithCache with `Agrees`, and `Math.Choose` Combination with `Pascal`.
--   `root` is the square root of the C library.
-- Log: LogMsg of CppLog (src/CppLog.h, src/CppLog.cpp) with the files that it renames, over a
--   `FileSystem` whose calls may fail. `Log.Names` tells the names of the files apart, `Log.Disk` has
--   what the calls are documented to do and when they succeed, `Log.Moves` the renames, and
--   `Log.Rotation` the theorem.
-- Net: CppEpollManager (src/CppNet.h, src/CppNet.cpp) as `Net.Epoll`, over a `Kernel` and the functions
--   of the user, `Handlers`, with theorems in `Covered` and `Stuck`. `Net.Press` has the figures of
--   MultiThreadClientBase with one client thread, while the thread of Run may change the figures of the
--   period at any time; `Net.Press.Figures` says what they stand for, and `Kept` has the theorem.
-- Time: the arithmetic on timeval of CppTime (src/CppTime.h), with theorems in `Time.Sums`,
--   and CppShowTimer (src/CppTime.cpp) as `Time.Show`, with its theorem in `Laps`.
-- EnumType: CppEnumType (src/CppEnumType.h, src/CppEnumType.cpp) over the table of a subclass, with
--   theorems in `EnumType.Names`.
-- Fraction: CppFraction<NumberType> (src/CppFraction.h) at unsigned integers of w bits; its constructor
--   reduces with `Math.gcd`. `Fraction.Reduced` has the constructor, operator* and operator/, and
--   `Fraction.Sum` operator+.
-- Pool: CppThreadPool (src/CppThread.h, src/CppThread.cpp). `Move` is one step of a worker in
--   `RunTask`, `Step` one step of the pool, and `Reach` any number of them. `Pool.Alone` is a way of one
--   worker while the other threads rest. `Pool.Calls`, `Pool.Order` and `Pool.Ending` have the theorems.
-- Zookeeper: ZookeeperManager (src/CppZookeeper.h, src/CppZookeeper.cpp), with the tables that
--   it keeps beside the C client; what the client answers is an argument. `Zookeeper.Requests` has
--   the calls of both forms, `Zookeeper.Requests.Completion` their completions, and
--   `Zookeeper.Watch` the handler of watcher events `InnerWatcher`, whose user's function does not
--   call the manager. `Zookeeper.Multi` is MultiOps and what Multi makes of the results,
--   `Zookeeper.Tree` has CreatePathRecursion and DeletePathRecursion, and `Zookeeper.Tree.Resumed`
--   the last loop of ReconnectResumeEnv. `Zookeeper.Rewatch` is its first two loops and the whole
--   of it, and `Zookeeper.Skip` is Create with ephemeral_exist_skip. `Text.Dict` is std::map with
--   texts as keys.
--
-- Conventions. An operation that may not end, or that C++ leaves undefined, gives an `Option`, and
-- `none` is that case. The difference loop of operator+ is the only one of CppBigNum that may not
-- end: it recurs on the digits, and answers `none` where the source would go on for ever. The loop
-- of operator/ over the digits 0 to 9 recurs on ten rounds, as in the source. `digits_of` has one
-- unit of fuel more than the number that it prints, which is more than its digits. The binary
-- search of operator/ of CppBigNumPro takes its fuel as an argument, and a theorem about it holds
-- for every amount of it. SplitStr has one unit of fuel more than the length of its text, each
-- round of it taking a separator off, and ReplaceStr two units more, each round of it bringing its
-- place nearer to the end of the text by one. SubstrCount and TrimLeft have one unit more than the
-- length of their text, which every round shortens. The walk of DeletePathRecursion takes its fuel
-- as an argument, and ends where the server lists a tree. GCD has the sum of its numbers as fuel,
-- Factorial its number, and both end within that. The loops of IsPrime, Combination and GetPrimerFactorNum have
-- one unit more than the bound that they count to, and a division loop one more than its number.
-- Characters are their codes, and `c - '0'` is taken of digits only. A timeval is after 1970.
--
-- Not modelled: several client threads of MultiThreadClientBase, which share its figures without a
-- lock, the lock of CppLRU (a call is one step), CppBigNum::Sqrt and the constructors
-- from signed integers, reading, printing, Sqrt and the assignments of CppBigNumPro, the other
-- functions of CppMath, GetStackTrace and the macros of CppLog, of CppNet addresses, UniqueFd
-- and the sockets, of CppTime the clock and the calendar, of ZookeeperManager the connections,
-- GetChildrenValue, GetCString and DeleteWatcher, the assignments and the printing of
-- CppFraction, the other functions of CppString, and the wrappers of other libraries and of the
-- system (CppCurl, CppMysql, CppTinyxml, CppJson, CppRegex, CppCrypto, CppCompress, CppChartDir,
-- CppFile, CppSystem, CppEnv).
pub mod Common
pub mod Lru
pub mod Text
pub mod Time
pub mod EnumType
pub mod BigNum
pub mod BigNumPro
pub mod Math
pub mod Fraction
pub mod Pool
pub mod Log
pub mod Net
pub mod Zookeeper
