-- ===== src/Tests/Brokers.antt =====
-- Addresses of a Redis server with and without a database.
use chihaya.Base.{
  ◌≡◌, refl, Bytes, bytes_eq, codes, [], pos, Result, ok, err, parse_int, parse_uint,
}
use chihaya.Middleware.Brokers
use chihaya.Middleware.Brokers.{Url, split_onto, err_atoi}
use chihaya.Redis.Backends.{parse_redis_url, database}
use chihaya.Redis.Backends.Broker.{refuse_nothing, parse_redis_url-agrees}

-- Every text is read as a host with the text as the path.
abbrev url_parse : Bytes → Result Url
url_parse t = ok (record { scheme = codes "redis"; host = codes "h"; path = t; user = [] })

no_number : parse_redis_url url_parse (codes "/") ≡ err err_atoi
unfolding parse_redis_url split_onto database parse_int bytes_eq
no_number = refl

zero_to_a_hook :
    Brokers.parse_redis_url url_parse (codes "/")
    ≡ ok (record { host = codes "h"; password = []; db = pos 0 })
unfolding Brokers.parse_redis_url split_onto Brokers.database bytes_eq
zero_to_a_hook = refl

twelve :
    parse_redis_url url_parse (codes "/12")
    ≡ ok (record { host = codes "h"; password = []; db = pos 12 })
unfolding parse_redis_url split_onto database parse_int parse_uint bytes_eq
twelve = refl

parse_redis_url-agrees_example :
    parse_redis_url url_parse (codes "/")
    ≡ refuse_nothing (url_parse (codes "/")) (Brokers.parse_redis_url url_parse (codes "/"))
parse_redis_url-agrees_example = parse_redis_url-agrees url_parse (codes "/")
